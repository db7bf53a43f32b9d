-- ===== src/Wire/Args/RoundTrip.antt =====
-- The callback gets the arguments that were bound, whole.
use fakelua.Base.{ℕ, zero, suc, ◌+◌, ◌^◌, ◌≤◌, ◌<◌, ◌≡◌, refl, ap, ◌∙◌, arith}
use fakelua.Base.{true, List, [], ◌∷◌, ◌++◌, append_assoc, append-nil, length, map}
use fakelua.Base.{length-append, Bool-cases, inl, inr}
use fakelua.Base.Result.{ok, >>=-eq-ok}
use fakelua.Varint.{write_varint}
use fakelua.Varint.Groups.{length-write_varint}
use fakelua.Wire.Value.{Bytes, Var, nil, bool, int, float, str, table, other, Heap, Tree, end}
use fakelua.Wire.Value.{max_depth, is_supported, supported_pairs}
use fakelua.Wire.Reify.{reify, reify_pairs, Fits, HeapFits}
use fakelua.Wire.Encode.{Dict, encode_value, visited_has}
use fakelua.Wire.RoundTrip.Scalars.{Codes, read_number-write_varint}
use fakelua.Wire.RoundTrip.Tables.{encode_value-Codes}
use fakelua.Wire.Args.{validate_pairs, validate_strict, validate_args, encode_args}
use fakelua.Wire.Args.{encode_callback_args, decode_args, decode_count, decode_callback_args}

-- The tree of a value with nothing left out.
module _ (heap : Heap) where
  unfoldable pub unfold_whole : ℕ → Var → Tree
  unfolding reify_pairs
  unfold_whole n nil = Tree.nil
  unfold_whole n (bool b) = Tree.bool b
  unfold_whole n (int i) = Tree.int i
  unfold_whole n (float f) = Tree.float f
  unfold_whole n (str s) = Tree.str s
  unfold_whole n (other t) = Tree.nil
  unfold_whole n (table zero) = Tree.table end
  unfold_whole zero (table (suc t)) = Tree.table end
  unfold_whole (suc n) (table (suc t)) = Tree.table (reify_pairs (unfold_whole n) (heap (suc t)))

  -- A value that passes the validation loses nothing in `reify`.
  strict_supported :
      (n : ℕ) (visited : List ℕ) (v : Var)
      → validate_strict heap n visited v ≡ ok tt
      → is_supported v ≡ true
  unfolding validate_strict is_supported
  strict_supported n visited (other t) h = cc
  strict_supported n visited (table zero) h = refl
  strict_supported zero visited (table (suc t)) h = refl
  strict_supported (suc n) visited (table (suc t)) h = refl
  strict_supported n visited v h = refl

  strict_pairs :
      (n : ℕ) (visited : List ℕ) (kvs : List (Var × Var))
      → ((v : Var) → validate_strict heap n visited v ≡ ok tt → reify heap n v ≡ unfold_whole n v)
      → validate_pairs (validate_strict heap n visited) kvs ≡ ok tt
      → reify_pairs (reify heap n) (supported_pairs kvs) ≡ reify_pairs (unfold_whole n) kvs
  unfolding validate_pairs supported_pairs reify_pairs
  strict_pairs n visited [] same h = refl
  strict_pairs n visited ((k, v) ∷ kvs) same h =
      let first = >>=-eq-ok (validate_strict heap n visited k) _ h in
      let second = >>=-eq-ok (validate_strict heap n visited v) _ first.2 in
      rw (
        strict_supported n visited k first.1,
        strict_supported n visited v second.1,
        same k first.1,
        same v second.1,
        strict_pairs n visited kvs same second.2,
      )

  strict_whole :
      (n : ℕ) (visited : List ℕ) (v : Var)
      → validate_strict heap n visited v ≡ ok tt
      → reify heap n v ≡ unfold_whole n v
  unfolding validate_strict reify unfold_whole
  strict_whole n visited (other t) h = refl
  strict_whole n visited (table zero) h = refl
  strict_whole zero visited (table (suc t)) h = refl
  strict_whole (suc n) visited (table (suc t)) h = elim (Bool-cases (visited_has (suc t) visited)) [
    | inl cyclic ↦ ground arith
    | inr fresh ↦ ap Tree.table (
        strict_pairs n (suc t ∷ visited) (heap (suc t)) (strict_whole n (suc t ∷ visited))
          (rw fresh at h))
  ]
  strict_whole n visited v h = refl

abbrev pub ArgsFit : List Var → Type 0
ArgsFit [] = Unit {0}
ArgsFit (v ∷ vs) = Fits v × ArgsFit vs

-- `Codes` for a run of arguments.
abbrev ArgCodes : Bytes → Dict → List Tree → Bytes → Dict → Type 0
ArgCodes out d ts out' d' =
    (code : Bytes) × (out' ≡ out ++ code)
    × (length ts ≤ length code)
    × (length d' ≤ length d + length code)
    × ((rest : Bytes)
        → length d + length code < 2 ^ 32
        → decode_args (length ts) (code ++ rest) d ≡ ok (ts, rest, d'))

join_args :
    (t : Tree) (ts : List Tree) (out₀ out₁ out₂ : Bytes) (d₀ d₁ d₂ : Dict)
    → Codes max_depth out₀ d₀ t out₁ d₁
    → ArgCodes out₁ d₁ ts out₂ d₂
    → ArgCodes out₀ d₀ (t ∷ ts) out₂ d₂
unfolding decode_args
join_args t ts out₀ out₁ out₂ d₀ d₁ d₂ (c₁, e₁, l₁, g₁, r₁) (c₂, e₂, l₂, g₂, r₂) =
    let lengths = length-append c₁ c₂ in
    (
      c₁ ++ c₂,
      rw (e₂, e₁) (append_assoc out₀ c₁ c₂),
      omega (arith, lengths),
      omega (arith, lengths),
      λ rest small. rw (
        append_assoc,
        r₁ (c₂ ++ rest) (omega (arith, lengths)),
        r₂ rest (omega (arith, lengths)),
      ),
    )

module _ (heap : Heap) (fits : HeapFits heap) where
  encode_args-ArgCodes :
      (vs : List Var) (out : Bytes) (d : Dict) (out' : Bytes) (d' : Dict)
      → ArgsFit vs
      → validate_args heap vs ≡ ok tt
      → encode_args heap out vs d ≡ ok (out', d')
      → ArgCodes out d (map (unfold_whole heap max_depth) vs) out' d'
  unfolding encode_args validate_args decode_args
  encode_args-ArgCodes [] out d out' d' fit strict h =
      let same_out : out ≡ out' = cc in
      let same_dict : d ≡ d' = cc in
      rw (← same_out, ← same_dict) ([], rw append-nil, omega arith, omega arith, λ rest small. refl)
  encode_args-ArgCodes (v ∷ vs) out d out' d' (fit, more) strict h =
      let checked = >>=-eq-ok (validate_strict heap max_depth [] v) _ strict in
      let run = >>=-eq-ok (encode_value heap max_depth [] out v d) _ h in
      let head = encode_value-Codes heap fits max_depth [] v out d run.0.0 run.0.1 fit run.1 in
      join_args (unfold_whole heap max_depth v) (map (unfold_whole heap max_depth) vs) out run.0.0
        out' d run.0.1 d' (rw (strict_whole heap max_depth [] v checked.1) at head)
        (encode_args-ArgCodes vs run.0.0 run.0.1 out' d' more checked.2 run.2)

decode_nonempty : (src : Bytes) → 1 ≤ length src → decode_callback_args src ≡ decode_count src
unfolding decode_callback_args
decode_nonempty [] h = absurd (omega arith)
decode_nonempty (b ∷ bs) h = refl

ArgCodes-decode :
    (count : ℕ) (ts : List Tree) (bytes : Bytes) (d : Dict)
    → length ts ≡ count
    → ArgCodes (write_varint [] count) [] ts bytes d
    → length bytes < 2 ^ 32
    → decode_callback_args bytes ≡ ok ts
unfolding decode_count
ArgCodes-decode count ts bytes d same (code, written, room, grows, reads) small =
    let total : length bytes ≡ length (write_varint [] count) + length code =
      ap length written ∙ length-append (write_varint [] count) code in
    let fits : count < 2 ^ 64 = omega (arith, total) in
    let alone = rw (append-nil, same) at (reads [] (omega (arith, total))) in
    decode_nonempty bytes (omega (arith, total, length-write_varint count fits))
    ∙ rw (written, read_number-write_varint count code fits, alone)

length-map_trees : (f : Var → Tree) (vs : List Var) → length (map f vs) ≡ length vs
length-map_trees f [] = refl
length-map_trees f (v ∷ vs) = ap suc (length-map_trees f vs)

-- For arguments whose numbers are bit patterns of 64 bits, over tables with no NaN key and no null
-- table pointer: if `encode_callback_args` returns bytes, fewer than 2 ^ 32, then
-- `decode_callback_args` reads back every argument, with every pair of every table in it.
pub decode_callback_args-encode_callback_args :
    (heap : Heap) (vs : List Var) (bytes : Bytes)
    → HeapFits heap
    → ArgsFit vs
    → encode_callback_args heap vs ≡ ok bytes
    → length bytes < 2 ^ 32
    → decode_callback_args bytes ≡ ok (map (unfold_whole heap max_depth) vs)
unfolding encode_callback_args
decode_callback_args-encode_callback_args heap [] bytes fits fit h small =
    let same : write_varint [] 0 ≡ bytes = cc in
    ArgCodes-decode 0 [] bytes [] refl
      (
        [],
        rw (← same) (rw append-nil),
        omega arith,
        omega arith,
        λ rest s. unfold decode_args in refl,
      )
      small
decode_callback_args-encode_callback_args heap (v ∷ vs) bytes fits fit h small =
    let checked = >>=-eq-ok (validate_args heap (v ∷ vs)) _ h in
    let count = length (v ∷ vs) in
    let run = >>=-eq-ok (encode_args heap (write_varint [] count) (v ∷ vs) []) _ checked.2 in
    let same : run.0.0 ≡ bytes = cc (run.2) in
    let codes =
      encode_args-ArgCodes heap fits (v ∷ vs) (write_varint [] count) [] run.0.0 run.0.1 fit
        checked.1 run.1 in
    ArgCodes-decode count (map (unfold_whole heap max_depth) (v ∷ vs)) bytes run.0.1
      (length-map_trees (unfold_whole heap max_depth) (v ∷ vs)) (rw same at codes) small
