-- ===== src/Base/Slices.antt =====
-- Lists by their entries, and a block written into a list.
use fakelua.Base.Lists.{length, get_or, take, drop}
use Prim.Native.Nat.{ℕ, zero, suc, ◌+◌, ◌-◌, ◌%◌, ◌≤◌, ◌<◌, min}
use mathlib.Core.Path.{◌≡◌, refl, ap, ap₂, ◌∙◌}
use mathlib.Core.List.{List, [], ◌∷◌, ◌++◌}
use native.Mathlib.Nat.{mod-eq_of_lt, mod-eq-sub-mod}
use native.Mathlib.Omega.{arith}

-- A remainder below one wrap, and below two.
pub mod-under : (x c : ℕ) → x < c → x % c ≡ x
mod-under x c h = mod-eq_of_lt h

pub mod-over : (x c : ℕ) → c ≤ x → x < c + c → x % c ≡ x - c
mod-over x c low high = mod-eq-sub-mod low ∙ mod-eq_of_lt (omega arith)

module _ {ℓ} {A : Type ℓ} where
  -- `g 0`, `g 1`, and so on, `n` entries.
  abbrev pub tabulate : ℕ → (ℕ → A) → List A
  tabulate zero g = []
  tabulate (suc n) g = g 0 ∷ tabulate n (λ i. g (suc i))

  pub length-tabulate : (n : ℕ) (g : ℕ → A) → length (tabulate n g) ≡ n
  length-tabulate zero g = refl
  length-tabulate (suc n) g = ap suc (length-tabulate n (λ i. g (suc i)))

  pub tabulate_ext :
      (n : ℕ) (g h : ℕ → A) → ((i : ℕ) → i < n → g i ≡ h i) → tabulate n g ≡ tabulate n h
  tabulate_ext zero g h same = refl
  tabulate_ext (suc n) g h same =
      ap₂ (λ x xs. x ∷ xs) (same 0 (omega arith))
        (tabulate_ext n (λ i. g (suc i)) (λ i. h (suc i)) (λ i less. same (suc i) (omega arith)))

  pub tabulate_add :
      (m n : ℕ) (g : ℕ → A) → tabulate (m + n) g ≡ tabulate m g ++ tabulate n (λ i. g (m + i))
  tabulate_add zero n g =
      let whole : 0 + n ≡ n = omega arith in
      rw whole (tabulate_ext n g (λ i. g (0 + i)) (λ i less. ap g (omega arith)))
  tabulate_add (suc m) n g =
      let next : suc m + n ≡ suc (m + n) = omega arith in
      rw next (
        ap (λ xs. g 0 ∷ xs)
          (tabulate_add m n (λ i. g (suc i))
            ∙ ap (λ xs. tabulate m (λ i. g (suc i)) ++ xs)
                (tabulate_ext n (λ i. g (suc (m + i))) (λ i. g (suc m + i))
                  (λ i less. ap g (omega arith)))))

  pub take-drop-tabulate :
      (xs : List A) (off n : ℕ) (d : A)
      → off + n ≤ length xs
      → take n (drop off xs) ≡ tabulate n (λ i. get_or xs (off + i) d)
  take-drop-tabulate xs zero zero d h = refl
  take-drop-tabulate [] zero (suc n) d h = absurd (omega arith)
  take-drop-tabulate (x ∷ xs) zero (suc n) d h =
      ap (λ ys. x ∷ ys)
        (take-drop-tabulate xs zero n d (omega arith)
          ∙ tabulate_ext n (λ i. get_or xs (0 + i) d) (λ i. get_or {A = A} (x ∷ xs) (0 + suc i) d)
              (λ i less. ap (λ j. get_or {A = A} (x ∷ xs) j d) {x = suc (0 + i)} (omega arith)))
  take-drop-tabulate [] (suc off) n d h = absurd (omega arith)
  take-drop-tabulate (x ∷ xs) (suc off) n d h =
      take-drop-tabulate xs off n d (omega arith)
      ∙ tabulate_ext n (λ i. get_or xs (off + i) d) (λ i. get_or {A = A} (x ∷ xs) (suc off + i) d)
          (λ i less. ap (λ j. get_or {A = A} (x ∷ xs) j d) {x = suc (off + i)} (omega arith))

  -- `ds` over the entries of `xs` from `off` on, as far as `xs` goes.
  abbrev pub write_at : List A → ℕ → List A → List A
  write_at [] off ds = []
  write_at (x ∷ xs) (suc off) ds = x ∷ write_at xs off ds
  write_at (x ∷ xs) zero [] = x ∷ xs
  write_at (x ∷ xs) zero (d ∷ ds) = d ∷ write_at xs zero ds

  pub length-write_at :
      (xs : List A) (off : ℕ) (ds : List A) → length (write_at xs off ds) ≡ length xs
  length-write_at [] off ds = refl
  length-write_at (x ∷ xs) (suc off) ds = ap suc (length-write_at xs off ds)
  length-write_at (x ∷ xs) zero [] = refl
  length-write_at (x ∷ xs) zero (d ∷ ds) = ap suc (length-write_at xs zero ds)

  pub get_or-write_at_inside :
      (xs : List A) (off : ℕ) (ds : List A) (i : ℕ) (z : A)
      → i < length ds
      → off + i < length xs
      → get_or (write_at xs off ds) (off + i) z ≡ get_or ds i z
  get_or-write_at_inside [] off ds i z h k = absurd (omega arith)
  get_or-write_at_inside (x ∷ xs) (suc off) ds i z h k =
      ap (λ j. get_or (x ∷ write_at xs off ds) j z) {y = suc (off + i)} (omega arith)
      ∙ get_or-write_at_inside xs off ds i z h (omega arith)
  get_or-write_at_inside (x ∷ xs) zero [] i z h k = absurd (omega arith)
  get_or-write_at_inside (x ∷ xs) zero (d ∷ ds) zero z h k = refl
  get_or-write_at_inside (x ∷ xs) zero (d ∷ ds) (suc i) z h k =
      ap (λ j. get_or (d ∷ write_at xs zero ds) j z) {y = suc (0 + i)} (omega arith)
      ∙ get_or-write_at_inside xs zero ds i z (omega arith) (omega arith)

  pub get_or-write_at_before :
      (xs : List A) (off : ℕ) (ds : List A) (i : ℕ) (z : A)
      → i < off
      → get_or (write_at xs off ds) i z ≡ get_or xs i z
  get_or-write_at_before [] off ds i z h = refl
  get_or-write_at_before (x ∷ xs) (suc off) ds zero z h = refl
  get_or-write_at_before (x ∷ xs) (suc off) ds (suc i) z h =
      get_or-write_at_before xs off ds i z (omega arith)
  get_or-write_at_before (x ∷ xs) zero ds i z h = absurd (omega arith)

  pub get_or-write_at_after :
      (xs : List A) (off : ℕ) (ds : List A) (i : ℕ) (z : A)
      → off + length ds ≤ i
      → get_or (write_at xs off ds) i z ≡ get_or xs i z
  get_or-write_at_after [] off ds i z h = refl
  get_or-write_at_after (x ∷ xs) (suc off) ds zero z h = refl
  get_or-write_at_after (x ∷ xs) (suc off) ds (suc i) z h =
      get_or-write_at_after xs off ds i z (omega arith)
  get_or-write_at_after (x ∷ xs) zero [] i z h = refl
  get_or-write_at_after (x ∷ xs) zero (d ∷ ds) zero z h = absurd (omega arith)
  get_or-write_at_after (x ∷ xs) zero (d ∷ ds) (suc i) z h =
      get_or-write_at_after xs zero ds i z (omega arith)

module _ {ℓ} {A : Type ℓ} where
  pub get_or-take : (xs : List A) (n i : ℕ) (z : A) → i < n → get_or (take n xs) i z ≡ get_or xs i z
  get_or-take xs zero i z h = absurd (omega arith)
  get_or-take [] (suc n) i z h = refl
  get_or-take (x ∷ xs) (suc n) zero z h = refl
  get_or-take (x ∷ xs) (suc n) (suc i) z h = get_or-take xs n i z (omega arith)

  pub get_or-drop : (xs : List A) (n i : ℕ) (z : A) → get_or (drop n xs) i z ≡ get_or xs (n + i) z
  get_or-drop xs zero i z = ap (λ j. get_or xs j z) (omega arith)
  get_or-drop [] (suc n) i z = refl
  get_or-drop (x ∷ xs) (suc n) i z =
      let next : suc n + i ≡ suc (n + i) = omega arith in rw next (get_or-drop xs n i z)

  pub take-tabulate : (n m : ℕ) (g : ℕ → A) → take n (tabulate m g) ≡ tabulate (min n m) g
  take-tabulate zero m g = let none : min 0 m ≡ 0 = omega arith in rw none refl
  take-tabulate (suc n) zero g = let none : min (suc n) 0 ≡ 0 = omega arith in rw none refl
  take-tabulate (suc n) (suc m) g =
      let less : min (suc n) (suc m) ≡ suc (min n m) = omega arith in
      rw less (ap (λ xs. g 0 ∷ xs) (take-tabulate n m (λ i. g (suc i))))

  pub drop-tabulate :
      (n m : ℕ) (g : ℕ → A) → drop n (tabulate m g) ≡ tabulate (m - n) (λ i. g (n + i))
  drop-tabulate zero m g =
      let all : m - 0 ≡ m = omega arith in
      rw all (tabulate_ext m g (λ i. g (0 + i)) (λ i less. ap g (omega arith)))
  drop-tabulate (suc n) zero g = let none : 0 - suc n ≡ 0 = omega arith in rw none refl
  drop-tabulate (suc n) (suc m) g =
      let less : suc m - suc n ≡ m - n = omega arith in
      rw less (
        drop-tabulate n m (λ i. g (suc i))
        ∙ tabulate_ext (m - n) (λ i. g (suc (n + i))) (λ i. g (suc n + i))
            (λ i within. ap g (omega arith)))

  pub tabulate-get_or :
      (xs : List A) (n : ℕ) (z : A) → n ≤ length xs → tabulate n (λ i. get_or xs i z) ≡ take n xs
  tabulate-get_or xs zero z h = refl
  tabulate-get_or [] (suc n) z h = absurd (omega arith)
  tabulate-get_or (x ∷ xs) (suc n) z h = ap (λ ys. x ∷ ys) (tabulate-get_or xs n z (omega arith))
