-- ===== src/Pool/Entries.antt =====
-- Lists of entries that change entry by entry, and what such a change keeps.
use fakelua.Base.{All, ℕ, zero, suc, ◌≡◌, arith, Bool, true, false, List, [], ◌∷◌, map}
use fakelua.Base.{some, set, get_elem?, subst, if◌then◌else◌, Bool-cases, inl, inr}
use fakelua.Pool.{PoolEntry, holds}

pub if_either {ℓ} :
    {A : Type 0} (P : A → Type ℓ) (test : Bool) {x y : A} → P x → P y → P (if test then x else y)
if_either P true h k = h
if_either P false h k = k

module _ {C : Type 0} where
  pub data Pointwise (R : PoolEntry C → PoolEntry C → Type 0)
      : List (PoolEntry C) → List (PoolEntry C) → Type 0 where
    done : Pointwise R [] []
    turn :
        {e e' : PoolEntry C} {es es' : List (PoolEntry C)}
        → R e e'
        → Pointwise R es es'
        → Pointwise R (e ∷ es) (e' ∷ es')

  -- No other entry holds the connection of an entry.
  abbrev pub Distinct : List (PoolEntry C) → Type 0
  Distinct [] = Unit {0}
  Distinct (e ∷ es) = ((a : ℕ) → holds a e ≡ true → All (λ e'. holds a e' ≡ false) es) × Distinct es

  module _ {R : PoolEntry C → PoolEntry C → Type 0} where
    pub All-Pointwise :
        (P : PoolEntry C → Type 0) {es es' : List (PoolEntry C)}
        → ((e e' : PoolEntry C) → R e e' → P e → P e')
        → Pointwise R es es'
        → All P es
        → All P es'
    All-Pointwise P step done all = tt
    All-Pointwise P step (turn {e = e} {e' = e'} r rs) (p, ps) =
        (step e e' r p, All-Pointwise P step rs ps)

    pub Distinct-Pointwise :
        {es es' : List (PoolEntry C)}
        → ((e e' : PoolEntry C) → R e e' → (a : ℕ) → holds a e' ≡ true → holds a e ≡ true)
        → Pointwise R es es'
        → Distinct es
        → Distinct es'
    Distinct-Pointwise step done all = tt
    Distinct-Pointwise step (turn {e = e} {e' = e'} r rs) (apart, rest) = (
      (λ a held.
          All-Pointwise (λ x. holds a x ≡ false) (λ x x' s free. still_free x x' s a free) rs
            (apart a (step e e' r a held))),
      Distinct-Pointwise step rs rest,
    )
      where
        still_free :
            (x x' : PoolEntry C) → R x x' → (a : ℕ) → holds a x ≡ false → holds a x' ≡ false
        still_free x x' s a free = elim (Bool-cases (holds a x')) [
          | inl held ↦ ground (arith, step x x' s a held)
          | inr not_held ↦ not_held
        ]

    pub Pointwise-refl : ((e : PoolEntry C) → R e e) → (es : List (PoolEntry C)) → Pointwise R es es
    Pointwise-refl same [] = done
    Pointwise-refl same (e ∷ es) = turn (same e) (Pointwise-refl same es)

    pub Pointwise-map :
        (f : PoolEntry C → PoolEntry C)
        → ((e : PoolEntry C) → R e (f e))
        → (es : List (PoolEntry C)) → Pointwise R es (map f es)
    Pointwise-map f step [] = done
    Pointwise-map f step (e ∷ es) = turn (step e) (Pointwise-map f step es)

    pub Pointwise-set :
        ((e : PoolEntry C) → R e e)
        → (es : List (PoolEntry C)) (i : ℕ) (e e' : PoolEntry C) → get_elem? es i ≡ some e
        → R e e'
        → Pointwise R es (set es i e')
    Pointwise-set same [] i e e' there r = done
    Pointwise-set same (x ∷ es) zero e e' there r =
        turn (subst (λ y. R y e') (ground (arith, there)) r) (Pointwise-refl same es)
    Pointwise-set same (x ∷ es) (suc i) e e' there r =
        turn (same x) (Pointwise-set same es i e e' there r)
