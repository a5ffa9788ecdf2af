-- ===== src/Base/Sort.antt =====
-- `ORDER BY`: insertion sort by a Boolean order of the rows.
use mathlib.Core.Bool.{Bool}
use mathlib.Core.Logic.{inl, inr}
use mathlib.Core.List.{List, [], ◌∷◌, Perm}
use mathlib.Core.List.Perm
use safety_recorder.Base.Tests.{if◌then◌else◌, Bool-cases}
use mathlib.Core.Path.{◌≡◌, refl}
use mathlib.Core.Bool.{◌||◌}
use native.Mathlib.Omega.{arith}
use safety_recorder.Base.Rows.{All, any_row}

module _ {ℓ} {A : Type ℓ} (before : A → A → Bool) where
  unfoldable pub insert_row : A → List A → List A
  insert_row a [] = a ∷ []
  insert_row a (x ∷ xs) = if before a x then a ∷ x ∷ xs else x ∷ insert_row a xs

  unfoldable pub order_by : List A → List A
  order_by [] = []
  order_by (x ∷ xs) = insert_row x (order_by xs)

module _ {ℓ} {A : Type ℓ} (before : A → A → Bool) where
  insert_row-All {κ} :
      (P : A → Type κ) (a : A) (l : List A) → P a → All P l → All P (insert_row before a l)
  unfolding insert_row
  insert_row-All P a [] h t = (h, tt)
  insert_row-All P a (x ∷ xs) h t = elim (Bool-cases (before a x)) [
    | inl e ↦ rw e (h, t)
    | inr e ↦ rw e (t.0, insert_row-All P a xs h t.1)
  ]

  pub order_by-All {κ} : (P : A → Type κ) (l : List A) → All P l → All P (order_by before l)
  unfolding order_by
  order_by-All P [] h = tt
  order_by-All P (x ∷ xs) h = insert_row-All P x (order_by before xs) h.0 (order_by-All P xs h.1)

  insert_row-perm : (a : A) (l : List A) → Perm (insert_row before a l) (a ∷ l)
  unfolding insert_row
  insert_row-perm a [] = Perm.refl _
  insert_row-perm a (x ∷ xs) = elim (Bool-cases (before a x)) [
    | inl e ↦ rw e (Perm.refl _)
    | inr e ↦ rw e (Perm.trans (Perm.cons x (insert_row-perm a xs)) (Perm.swap a x xs))
  ]

  pub order_by-perm : (l : List A) → Perm (order_by before l) l
  unfolding order_by
  order_by-perm [] = Perm.refl _
  order_by-perm (x ∷ xs) =
      Perm.trans (insert_row-perm x (order_by before xs)) (Perm.cons x (order_by-perm xs))

module _ {ℓ} {A : Type ℓ} (before : A → A → Bool) (p : A → Bool) where
  any_row-insert_row :
      (a : A) (l : List A) → any_row p (insert_row before a l) ≡ (p a || any_row p l)
  unfolding any_row insert_row
  any_row-insert_row a [] = refl
  any_row-insert_row a (x ∷ xs) = ground (arith, any_row-insert_row a xs)

  -- Sorting keeps which rows there are.
  pub any_row-order_by : (l : List A) → any_row p (order_by before l) ≡ any_row p l
  unfolding any_row order_by
  any_row-order_by [] = refl
  any_row-order_by (x ∷ xs) =
      ground (arith, any_row-order_by xs, any_row-insert_row x (order_by before xs))
