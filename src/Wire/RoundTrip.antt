-- ===== src/Wire/RoundTrip.antt =====
-- `wire_decode` after `wire_encode`.
pub mod Scalars
pub mod Strings
pub mod Tables
use fakelua.Base.{ℕ, ◌+◌, ◌^◌, ◌<◌, ◌≡◌, refl, arith, List, [], ◌∷◌, ◌++◌, append-nil, length}
use fakelua.Base.Result.{ok, err, >>=-eq-ok}
use fakelua.Wire.Value.{Bytes, Var, Heap, Tree, trailing_bytes, max_depth}
use fakelua.Wire.Reify.{reify, Fits, HeapFits}
use fakelua.Wire.Encode.{Dict, encode_value, wire_encode}
use fakelua.Wire.Decode.{decode_value, all_consumed, wire_decode}
use fakelua.Wire.RoundTrip.Scalars.{Codes}
use fakelua.Wire.RoundTrip.Tables.{encode_value-Codes}

Codes-decode :
    (d : Dict) (t : Tree) (bytes : Bytes)
    → Codes max_depth [] [] t bytes d
    → length bytes < 2 ^ 32
    → (wire_decode bytes ≡ ok t)
      × ((b : ℕ) (more : Bytes) → wire_decode (bytes ++ b ∷ more) ≡ err trailing_bytes)
unfolding wire_decode
Codes-decode d t bytes (code, written, some_byte, grows, reads) small =
    let code_small : 0 + length code < 2 ^ 32 = omega (arith, rw written at small) in
    let alone = rw append-nil at (reads [] code_small) in
    (rw (written, alone), λ b more. rw (written, reads (b ∷ more) code_small))

-- For a value whose numbers are bit patterns of 64 bits, over tables with no NaN key and no null
-- table pointer: if `wire_encode` returns bytes, fewer than 2 ^ 32, then `wire_decode` reads back
-- the tree that the value unfolds to, with the unsupported pairs left out; and with anything after
-- those bytes it throws for the trailing bytes.
pub wire_decode-wire_encode :
    (heap : Heap) (v : Var) (bytes : Bytes)
    → HeapFits heap
    → Fits v
    → wire_encode heap v ≡ ok bytes
    → length bytes < 2 ^ 32
    → (wire_decode bytes ≡ ok (reify heap max_depth v))
      × ((b : ℕ) (more : Bytes) → wire_decode (bytes ++ b ∷ more) ≡ err trailing_bytes)
unfolding wire_encode
wire_decode-wire_encode heap v bytes fits fit encoded small =
    let run = >>=-eq-ok (encode_value heap max_depth [] [] v []) _ encoded in
    let same_bytes : run.0.0 ≡ bytes = cc (run.2) in
    let codes = encode_value-Codes heap fits max_depth [] v [] [] run.0.0 run.0.1 fit run.1 in
    Codes-decode run.0.1 (reify heap max_depth v) bytes (rw same_bytes at codes) small
