-- ===== src/Wire/RoundTrip/Tables.antt =====
-- Tables, by recursion on the depth that is left.
use fakelua.Base.{ℕ, zero, suc, ◌+◌, ◌*◌, ◌/◌, ◌^◌, ◌≤◌, ◌<◌, ◌≡◌, refl, arith}
use fakelua.Base.{List, [], ◌∷◌, ◌++◌, append_assoc, append-nil, length, false, ◌&&◌}
use fakelua.Base.{length-append, inl, inr, Bool-cases, ltb}
use fakelua.Base.Result.{ok, >>=-eq-ok}
use fakelua.Varint.{write_varint}
use fakelua.Wire.Value.{Bytes, Var, nil, bool, int, float, str, table, other, Heap, Tree, Pairs}
use fakelua.Wire.Value.{is_supported, supported_pairs}
use fakelua.Wire.Reify.{reify, reify_pairs, Fits, IsKey, AllFit, HeapFits}
use fakelua.Wire.Encode.{Dict, Encoded, encode_pairs, encode_value, visited_has}
use fakelua.Wire.Decode.{decode_pairs, decode_value, decode_table, key_is_nan}
use fakelua.Wire.RoundTrip.Scalars.{Codes, tagged, read_number-write_varint}
use fakelua.Wire.RoundTrip.Scalars.{Codes-nil, Codes-bool, Codes-int, Codes-float}
use fakelua.Wire.RoundTrip.Strings.{Codes-str}

-- `Codes` for a run of pairs; each takes two bytes at least.
abbrev PairCodes : ℕ → Bytes → Dict → ℕ → Pairs → Bytes → Dict → Type 0
PairCodes n out d count t out' d' =
    (code : Bytes) × (out' ≡ out ++ code)
    × (2 * count ≤ length code)
    × (length d' ≤ length d + length code)
    × ((rest : Bytes)
        → length d + length code < 2 ^ 32
        → decode_pairs (decode_value n) count (code ++ rest) d ≡ ok (t, rest, d'))

abbrev Writes : ℕ → (Bytes → Var → Dict → Encoded) → (Var → Tree) → Type 0
Writes n enc f =
    (v : Var) (out : Bytes) (d : Dict) (out' : Bytes) (d' : Dict)
    → Fits v
    → enc out v d ≡ ok (out', d')
    → Codes n out d (f v) out' d'

module _ (n : ℕ) (enc : Bytes → Var → Dict → Encoded) (f : Var → Tree) (writes : Writes n enc f)
    (keys : (k : Var) → IsKey k → key_is_nan (f k) ≡ false) where
  join :
      (k v : Var) (kvs : List (Var × Var)) (out₀ out₁ out₂ out₃ : Bytes) (d₀ d₁ d₂ d₃ : Dict)
      → IsKey k
      → Codes n out₀ d₀ (f k) out₁ d₁
      → Codes n out₁ d₁ (f v) out₂ d₂
      → PairCodes n out₂ d₂ (length kvs) (reify_pairs f kvs) out₃ d₃
      → PairCodes n out₀ d₀ (suc (length kvs)) (reify_pairs f ((k, v) ∷ kvs)) out₃ d₃
  unfolding reify_pairs decode_pairs
  join k v kvs out₀ out₁ out₂ out₃ d₀ d₁ d₂ d₃ key (c₁, e₁, l₁, g₁, r₁) (c₂, e₂, l₂, g₂, r₂)
        (c₃, e₃, l₃, g₃, r₃) =
      let lengths = length-append c₂ c₃ in
      let lengths' = length-append c₁ (c₂ ++ c₃) in
      (
        c₁ ++ (c₂ ++ c₃),
        rw (e₃, e₂, e₁, append_assoc, append_assoc),
        omega (arith, lengths, lengths'),
        omega (arith, lengths, lengths'),
        λ rest small. rw (
          append_assoc,
          append_assoc,
          r₁ (c₂ ++ (c₃ ++ rest)) (omega (arith, lengths, lengths')),
          r₂ (c₃ ++ rest) (omega (arith, lengths, lengths')),
          keys k key,
          r₃ rest (omega (arith, lengths, lengths')),
        ),
      )

  encode_pairs-PairCodes :
      (kvs : List (Var × Var)) (out : Bytes) (d : Dict) (out' : Bytes) (d' : Dict)
      → AllFit kvs
      → encode_pairs enc out kvs d ≡ ok (out', d')
      → PairCodes n out d (length kvs) (reify_pairs f kvs) out' d'
  unfolding encode_pairs reify_pairs decode_pairs
  encode_pairs-PairCodes [] out d out' d' fit h =
      let same_out : out ≡ out' = cc in
      let same_dict : d ≡ d' = cc in
      rw (← same_out, ← same_dict) ([], rw append-nil, omega arith, omega arith, λ rest small. refl)
  encode_pairs-PairCodes ((k, v) ∷ kvs) out d out' d' (fk, key, fv, fits) h =
      let first = >>=-eq-ok (enc out k d) _ h in
      let second = >>=-eq-ok (enc first.0.0 v first.0.1) _ first.2 in
      join k v kvs out first.0.0 second.0.0 out' d first.0.1 second.0.1 d' key
        (writes k out d first.0.0 first.0.1 fk first.1)
        (writes v first.0.0 first.0.1 second.0.0 second.0.1 fv second.1)
        (encode_pairs-PairCodes kvs second.0.0 second.0.1 out' d' fits second.2)

supported_pairs-AllFit : (kvs : List (Var × Var)) → AllFit kvs → AllFit (supported_pairs kvs)
unfolding supported_pairs
supported_pairs-AllFit [] fit = tt
supported_pairs-AllFit ((k, v) ∷ kvs) (fk, key, fv, fits) =
    elim (Bool-cases (is_supported k && is_supported v)) [
      | inl kept ↦ rw kept (fk, key, fv, supported_pairs-AllFit kvs fits)
      | inr dropped ↦ rw dropped (supported_pairs-AllFit kvs fits)
    ]

abbrev encoded : Bytes → Dict → Encoded
encoded a b = ok (a, b)

moved :
    (n : ℕ) (out : Bytes) (d : Dict) (t : Tree) (a : Bytes) (b : Dict) (out' : Bytes) (d' : Dict)
    → Codes n out d t a b
    → encoded a b ≡ ok (out', d')
    → Codes n out d t out' d'
moved n out d t a b out' d' codes e =
    let same_out : a ≡ out' = cc in
    let same_dict : b ≡ d' = cc in rw (← same_out, ← same_dict) codes

decode_tag_table :
    (n : ℕ) (src : Bytes) (d : Dict)
    → decode_value (suc n) (0x07 ∷ src) d ≡ decode_table (decode_value n) src d
unfolding decode_value
decode_tag_table n src d = refl

fits_half : (a b : ℕ) → 2 * b ≤ a → ltb (a / 2) b ≡ false
fits_half a b h = ground arith

decode_header :
    (n count : ℕ) (src : Bytes) (d : Dict) (t : Pairs) (rest : Bytes) (d' : Dict)
    → count < 2 ^ 64
    → 2 * count ≤ length src
    → decode_pairs (decode_value n) count src d ≡ ok (t, rest, d')
    → decode_table (decode_value n) (write_varint [] count ++ src) d ≡ ok (Tree.table t, rest, d')
unfolding decode_table
decode_header n count src d t rest d' small room reads =
    rw (read_number-write_varint count src small, fits_half (length src) count room, reads)

-- The header of a table, then its pairs.
Codes-table :
    (n count : ℕ) (out : Bytes) (d : Dict) (t : Pairs) (out' : Bytes) (d' : Dict)
    → PairCodes n (write_varint (out ++ 0x07 ∷ []) count) d count t out' d'
    → Codes (suc n) out d (Tree.table t) out' d'
Codes-table n count out d t out' d' (code, written, two_each, grows, reads) = (
  0x07 ∷ write_varint [] count ++ code,
  rw (written, tagged) (append_assoc out (0x07 ∷ write_varint [] count) code),
  omega arith,
  omega (arith, length-append (write_varint [] count) code),
  λ rest small.
      let all = length-append (write_varint [] count) code in
      let count_small : count < 2 ^ 64 = omega (arith, all) in
      rw (append_assoc, decode_tag_table)
        (decode_header n count (code ++ rest) d t rest d' count_small
          (omega (arith, length-append code rest)) (reads rest (omega (arith, all)))),
)

module _ (heap : Heap) (fits : HeapFits heap) where
  key_is_nan-reify : (n : ℕ) (k : Var) → IsKey k → key_is_nan (reify heap n k) ≡ false
  unfolding reify
  key_is_nan-reify n nil h = refl
  key_is_nan-reify n (float f) h = h
  key_is_nan-reify n (table zero) h = refl
  key_is_nan-reify zero (table (suc t)) h = refl
  key_is_nan-reify (suc n) (table (suc t)) h = refl
  key_is_nan-reify n k h = refl

  pub encode_value-Codes :
      (n : ℕ) (visited : List ℕ) → Writes n (encode_value heap n visited) (reify heap n)
  unfolding encode_value reify
  encode_value-Codes n visited nil out d out' d' fit h =
      moved n out d _ _ _ out' d' (Codes-nil n out d) h
  encode_value-Codes n visited (bool b) out d out' d' fit h =
      moved n out d _ _ _ out' d' (Codes-bool n b out d) h
  encode_value-Codes n visited (int i) out d out' d' fit h =
      moved n out d _ _ _ out' d' (Codes-int n i out d fit) h
  encode_value-Codes n visited (float f) out d out' d' fit h =
      moved n out d _ _ _ out' d' (Codes-float n f out d fit) h
  encode_value-Codes n visited (str s) out d out' d' fit h =
      moved n out d _ _ _ out' d' (Codes-str n s out d) h
  encode_value-Codes n visited (other t) out d out' d' fit h = cc
  encode_value-Codes n visited (table zero) out d out' d' fit h = absurd (omega arith)
  encode_value-Codes zero visited (table (suc t)) out d out' d' fit h = cc
  encode_value-Codes (suc n) visited (table (suc t)) out d out' d' fit h =
      elim (Bool-cases (visited_has (suc t) visited)) [
        | inl cyclic ↦ ground arith
        | inr fresh ↦ Codes-table n _ out d _ out' d' (
            encode_pairs-PairCodes n (encode_value heap n (suc t ∷ visited)) (reify heap n)
              (encode_value-Codes n (suc t ∷ visited)) (key_is_nan-reify n)
              (supported_pairs (heap (suc t)))
              (write_varint (out ++ 0x07 ∷ []) (length (supported_pairs (heap (suc t))))) d out' d'
              (supported_pairs-AllFit (heap (suc t)) (fits (suc t))) (rw fresh at h))
      ]
