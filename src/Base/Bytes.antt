-- ===== src/Base/Bytes.antt =====
-- Strings as lists of bytes.
use Prim.Native.Nat.{ℕ}
use fakelua.Base.{Bool, true, false, List, [], ◌∷◌, ◌==◌, if◌then◌else◌}

-- Whether two strings have the same bytes.
unfoldable pub same_bytes : List ℕ → List ℕ → Bool
same_bytes [] [] = true
same_bytes [] (y ∷ ys) = false
same_bytes (x ∷ xs) [] = false
same_bytes (x ∷ xs) (y ∷ ys) = let rest = same_bytes xs ys in if x == y then rest else false
