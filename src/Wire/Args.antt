-- ===== src/Wire/Args.antt =====
-- `ValidateStrict`, `WireEncodeCallbackArgs` and `WireDecodeCallbackArgs` of
-- src/native/serialize/wire_codec.cpp: bound arguments, from which nothing may be left out.
pub mod RoundTrip
use fakelua.Base.{ℕ, zero, suc, ◌+◌, Bool, true, false, List, [], ◌∷◌, ◌++◌, length, if◌then◌else◌}
use fakelua.Base.Result.{Result, ok, err, ◌>>=◌, ◌>>◌, throw_if}
use fakelua.Varint.{write_varint}
use fakelua.Wire.Value.{Bytes, Var, table, other, Heap, Tree, Error, max_depth}
use fakelua.Wire.Value.{bad_argument, args_too_deep, args_cyclic, args_trailing_bytes}
use fakelua.Wire.Encode.{Dict, Encoded, encode_value, visited_has}
use fakelua.Wire.Decode.{Decoded, decode_value, read_number}

-- `depth` and `visited` as in the encoder.
validate_pairs : (Var → Result Error (Unit {0})) → List (Var × Var) → Result Error (Unit {0})
validate_pairs check [] = ok tt
validate_pairs check ((k, v) ∷ kvs) = do check k; check v; validate_pairs check kvs

module _ (heap : Heap) where
  validate_strict : ℕ → List ℕ → Var → Result Error (Unit {0})
  unfolding validate_pairs visited_has
  validate_strict n visited (other t) = err bad_argument
  validate_strict n visited (table zero) = ok tt
  validate_strict zero visited (table (suc t)) = err args_too_deep
  validate_strict (suc n) visited (table (suc t)) =
      let check = validate_strict n (suc t ∷ visited) in
      if visited_has (suc t) visited then err args_cyclic else validate_pairs check (heap (suc t))
  validate_strict n visited v = ok tt

  validate_args : List Var → Result Error (Unit {0})
  unfolding validate_strict
  validate_args [] = ok tt
  validate_args (v ∷ vs) = do validate_strict max_depth [] v; validate_args vs

  encode_args : Bytes → List Var → Dict → Encoded
  encode_args out [] d = ok (out, d)
  encode_args out (v ∷ vs) d = do
    (out₁, d₁) ← encode_value heap max_depth [] out v d
    encode_args out₁ vs d₁

  -- The list is `args[first]` to `args[n - 1]`. No argument is written as the count alone.
  unfoldable pub encode_callback_args : List Var → Result Error Bytes
  unfolding validate_args encode_args encode_value
  encode_callback_args [] = ok (write_varint [] 0)
  encode_callback_args (v ∷ vs) = do
    validate_args (v ∷ vs)
    (out, _) ← encode_args (write_varint [] (length (v ∷ vs))) (v ∷ vs) []
    ok out

decode_args : ℕ → Bytes → List Bytes → Decoded (List Tree)
decode_args zero src d = ok ([], src, d)
decode_args (suc count) src d = do
  (t, src₁, d₁) ← decode_value max_depth src d
  (ts, src₂, d₂) ← decode_args count src₁ d₁
  ok (t ∷ ts, src₂, d₂)

args_consumed : List Tree × Bytes × List Bytes → Result Error (List Tree)
args_consumed (ts, [], d) = ok ts
args_consumed (ts, b ∷ bs, d) = err args_trailing_bytes

decode_count : Bytes → Result Error (List Tree)
unfolding decode_args args_consumed
decode_count src = do
  (count, rest) ← read_number src
  r ← decode_args count rest []
  args_consumed r

-- An empty blob is an empty list. `reserve(count)` is taken to get its memory.
pub decode_callback_args : Bytes → Result Error (List Tree)
unfolding decode_count
decode_callback_args [] = ok []
decode_callback_args (b ∷ bs) = decode_count (b ∷ bs)
