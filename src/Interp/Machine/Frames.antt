-- ===== src/Interp/Machine/Frames.antt =====
-- Registers none of which has a box are read and written alike by the two instances of the
-- interpreter.
use fakelua.Base.{ℕ, zero, suc, ◌≡◌, refl, sym, ap, subst, true, false, List, [], ◌∷◌}
use fakelua.Base.{Option, none, get_or, set}
use fakelua.Base.Result.{Result, ok, err, ◌>>=◌}
use fakelua.Interp.Value.{Floats, Value, int, Error}
use fakelua.Interp.Frame.{
  Frame, box_of, vm_slot, vm_write, vm_write_int, vm_clear_box, fresh, store,
}

-- The same result, and one that `P` holds of.
abbrev pub Holds : {A : Type 0} → (A → Type 0) → Result Error A → Type 0
Holds P (ok a) = P a
Holds P (err e) = Unit {0}

abbrev pub Agree : {A : Type 0} → (A → Type 0) → Result Error A → Result Error A → Type 0
Agree P x y = (x ≡ y) × Holds P y

pub bind-Agree :
    {A B : Type 0} (P : B → Type 0) (f g : A → Result Error B) (r : Result Error A)
    → ((a : A) → Agree P (f a) (g a))
    → Agree P (r >>= f) (r >>= g)
bind-Agree P f g (ok a) each = each a
bind-Agree P f g (err e) each = (refl, tt)

-- A first part that is the same, too.
pub then-Agree :
    {A B : Type 0} (Q : A → Type 0) (P : B → Type 0) (f g : A → Result Error B)
    (x y : Result Error A)
    → Agree Q x y
    → ((a : A) → Q a → Agree P (f a) (g a))
    → Agree P (x >>= f) (y >>= g)
then-Agree {A = A} Q P f g x y (same, holds) each =
    subst (λ z. Agree P (z >>= f) (y >>= g)) (sym same) (on_value y holds)
  where
    on_value : (z : Result Error A) → Holds Q z → Agree P (z >>= f) (z >>= g)
    on_value (ok a) q = each a q
    on_value (err e) q = (refl, tt)

module _ (fl : Floats) where
  open fl use {F}

  -- No register has a box.
  abbrev pub NoBoxes : Frame fl → Type 0
  NoBoxes fr = (r : ℕ) → get_or fr.box r none ≡ none

  pub slot_same :
      (fr : Frame fl) (r : ℕ) → NoBoxes fr → vm_slot fl true fr r ≡ vm_slot fl false fr r
  unfolding vm_slot box_of
  slot_same fr r unboxed = rw (unboxed r) refl

  pub write_same :
      (fr : Frame fl) (r : ℕ) (v : Value F)
      → NoBoxes fr
      → vm_write fl true fr r v ≡ vm_write fl false fr r v
  unfolding vm_write box_of store
  write_same fr r v unboxed =
      ap (λ b. record fr { stk = set fr.stk r v; cells = store fl b v fr.cells }) (unboxed r)

  pub write_int_same :
      (fr : Frame fl) (r n : ℕ)
      → NoBoxes fr
      → vm_write_int fl true fr r n ≡ vm_write_int fl false fr r n
  unfolding vm_write_int box_of store
  write_int_same fr r n unboxed =
      ap (λ b. record fr { stk = set fr.stk r (int n); cells = store fl b (int n) fr.cells })
        (unboxed r)

  set-none : (box : List (Option ℕ)) (r : ℕ) → get_or box r none ≡ none → set box r none ≡ box
  set-none [] r h = refl
  set-none (b ∷ box) zero h = ap (λ c. c ∷ box) (sym h)
  set-none (b ∷ box) (suc r) h = ap (λ c. b ∷ c) (set-none box r h)

  pub fresh_same :
      (fr : Frame fl) (r : ℕ) (v : Value F)
      → NoBoxes fr
      → fresh fl true fr r v ≡ fresh fl false fr r v
  unfolding fresh vm_clear_box
  fresh_same fr r v unboxed =
      ap (λ b. record fr { stk = set fr.stk r v; box = b }) (set-none fr.box r (unboxed r))
