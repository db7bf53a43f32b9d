-- ===== src/Wire/Reify.antt =====
-- What the decoder should make of a value: the tree that the pointers unfold to, to a depth, with
-- the pairs that the encoder of src/native/serialize/wire_codec.cpp skips left out.
use fakelua.Base.{ℕ, zero, suc, ◌≤◌, ◌<◌, ◌^◌, ◌≡◌, false, List, [], ◌∷◌}
use fakelua.Wire.Value.{
  Var, nil, bool, int, float, str, table, other, Heap, Tree, Pairs, end, entry,
}
use fakelua.Wire.Value.{supported_pairs, is_nan}

unfoldable pub reify_pairs : (Var → Tree) → List (Var × Var) → Pairs
reify_pairs f [] = end
reify_pairs f ((k, v) ∷ kvs) = entry (f k) (f v) (reify_pairs f kvs)

module _ (heap : Heap) where
  unfoldable pub reify : ℕ → Var → Tree
  unfolding reify_pairs
  reify n nil = Tree.nil
  reify n (bool b) = Tree.bool b
  reify n (int i) = Tree.int i
  reify n (float f) = Tree.float f
  reify n (str s) = Tree.str s
  reify n (other t) = Tree.nil
  reify n (table zero) = Tree.table end
  reify zero (table (suc t)) = Tree.table end
  reify (suc n) (table (suc t)) =
      Tree.table (reify_pairs (reify n) (supported_pairs (heap (suc t))))

-- The bit patterns are those of 64 bits, and a table pointer is not null. (At the last depth a null
-- table is written and not read back.)
abbrev pub Fits : Var → Type 0
Fits (int i) = i < 2 ^ 64
Fits (float f) = f < 2 ^ 64
Fits (table t) = 1 ≤ t
Fits _ = Unit {0}

-- No table key is a NaN: `SetTable` refuses one.
abbrev pub IsKey : Var → Type 0
IsKey (float f) = is_nan f ≡ false
IsKey _ = Unit {0}

abbrev pub AllFit : List (Var × Var) → Type 0
AllFit [] = Unit {0}
AllFit ((k, v) ∷ kvs) = Fits k × IsKey k × Fits v × AllFit kvs

abbrev pub HeapFits : Heap → Type 0
HeapFits heap = (t : ℕ) → AllFit (heap t)
