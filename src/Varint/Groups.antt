-- ===== src/Varint/Groups.antt =====
-- What `write_varint` appends, in plain arithmetic: groups of seven bits, the lowest first.
use fakelua.Base.{ℕ, zero, suc, ◌+◌, ◌*◌, ◌/◌, ◌%◌, ◌^◌, ◌≤◌, ◌<◌, ◌≡◌, bit_and, bit_or, arith}
use fakelua.Base.{List, [], ◌∷◌, ◌++◌, append_assoc, ltb, if◌then◌else◌, length}
use fakelua.Base.Bits.{and_mask, or_disjoint}
use fakelua.Varint.{write_loop, rounds, write_varint}
use mathlib.Core.WellFounded.{Acc}

-- At most `k + 1` groups of `v`.
unfoldable pub groups : ℕ → ℕ → List ℕ
groups zero v = v ∷ []
groups (suc k) v =
    let rest = groups k (v / 128) in if ltb v 128 then v ∷ [] else (v % 128 + 128) ∷ rest

marked_group : (v : ℕ) → bit_or (bit_and v 0x7f) 0x80 % 256 ≡ v % 128 + 128
marked_group v = rw (and_mask 7 v, or_disjoint 7 (v % 128) 1 (omega arith)) (omega arith)

write_loop-groups :
    (k : ℕ) (out : List ℕ) (v : ℕ) (w : Acc ◌<◌ v)
    → v < 2 * 128 ^ k
    → write_loop out v w ≡ out ++ groups k v
unfolding write_loop groups
write_loop-groups zero out v (Acc.intro _ smaller) h = grind arith
write_loop-groups (suc k) out v (Acc.intro _ smaller) h =
    let head : List ℕ = (v % 128 + 128) ∷ [] in
    grind (
      arith,
      marked_group v,
      λ (w : Acc ◌<◌ (v / 128)). write_loop-groups k (out ++ head) (v / 128) w (omega arith),
      append_assoc out head (groups k (v / 128)),
    )

-- Every uint64 takes at most ten groups.
pub write_varint-groups :
    (out : List ℕ) (v : ℕ) → v < 2 ^ 64 → write_varint out v ≡ out ++ groups 9 v
unfolding write_varint
write_varint-groups out v h = write_loop-groups 9 out v (rounds v) (omega arith)

pub length-groups : (k v : ℕ) → (1 ≤ length (groups k v)) × (length (groups k v) ≤ k + 1)
unfolding groups
length-groups zero v = omega arith
length-groups (suc k) v = ground (arith, length-groups k (v / 128))

write_loop-append :
    (bound : ℕ) (out : List ℕ) (v : ℕ) (w : Acc ◌<◌ v)
    → v < bound
    → write_loop out v w ≡ out ++ write_loop [] v w
unfolding write_loop
write_loop-append zero out v w h = absurd (omega arith)
write_loop-append (suc bound) out v (Acc.intro _ smaller) h =
    let head : List ℕ = bit_or (bit_and v 0x7f) 0x80 % 256 ∷ [] in
    grind (
      arith,
      λ (w : Acc ◌<◌ (v / 128)) (p : 0x7f < v).
          write_loop-append bound (out ++ head) (v / 128) w (omega arith),
      λ (w : Acc ◌<◌ (v / 128)) (p : 0x7f < v).
          write_loop-append bound head (v / 128) w (omega arith),
      append_assoc out head,
    )

-- The writer only appends, and what it appends does not depend on what is there.
pub write_varint-append : (out : List ℕ) (v : ℕ) → write_varint out v ≡ out ++ write_varint [] v
unfolding write_varint
write_varint-append out v = write_loop-append (suc v) out v (rounds v) (omega arith)

-- At least one byte is written.
pub length-write_varint : (v : ℕ) → v < 2 ^ 64 → 1 ≤ length (write_varint [] v)
length-write_varint v h = rw (write_varint-groups [] v h) ((length-groups 9 v).0)
