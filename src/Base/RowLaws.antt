-- ===== src/Base/RowLaws.antt =====
-- What an observation of a table sees after a statement has run on it.
use Prim.Native.Nat.{ℕ, zero, suc, ◌+◌, ◌≤◌}
use mathlib.Core.Path.{◌≡◌, refl, ap}
use mathlib.Core.Bool.{Bool, true, false, ◌||◌, ◌&&◌}
use mathlib.Core.Option
use mathlib.Core.Option.{Option, none, some}
use mathlib.Core.List.{List, [], ◌∷◌, ◌++◌}
use native.Mathlib.Omega.{arith}
use safety_recorder.Base.Tests.{if◌then◌else◌, is_some}
use safety_recorder.Base.Rows.{
  length, take, All, find_row, any_row, select, update_where, delete_where, sum_of,
}

module _ {ℓ} {A : Type ℓ} (p : A → Bool) where
  pub any_row-eq-is_some : (l : List A) → any_row p l ≡ is_some (find_row p l)
  unfolding any_row find_row
  any_row-eq-is_some [] = refl
  any_row-eq-is_some (x ∷ xs) = ground (arith, any_row-eq-is_some xs)

  -- A found row meets the clause.
  pub find_row_sound : (l : List A) (a : A) → find_row p l ≡ some a → p a ≡ true
  unfolding find_row
  find_row_sound [] a h = cc
  find_row_sound (x ∷ xs) a h = ground (arith, find_row_sound xs a)

  pub find_row-append :
      (l : List A) (a : A)
      → find_row p (l ++ a ∷ [])
        ≡ (if is_some (find_row p l) then find_row p l else if p a then some a else none)
  unfolding find_row
  find_row-append [] a = refl
  find_row-append (x ∷ xs) a = ground (arith, find_row-append xs a)

  pub select-append :
      (l : List A) (a : A) → select p (l ++ a ∷ []) ≡ select p l ++ (if p a then a ∷ [] else [])
  unfolding select
  select-append [] a = ground arith
  select-append (x ∷ xs) a = ground (arith, select-append xs a)

  pub select-append_ne : (l : List A) (a : A) → p a ≡ false → select p (l ++ a ∷ []) ≡ select p l
  unfolding select
  select-append_ne [] a h = ground arith
  select-append_ne (x ∷ xs) a h = ground (arith, select-append_ne xs a h)

  pub select-eq-nil_of : (l : List A) → any_row p l ≡ false → select p l ≡ []
  unfolding select any_row
  select-eq-nil_of [] h = refl
  select-eq-nil_of (x ∷ xs) h = ground (arith, select-eq-nil_of xs)

  pub length-select-le : (l : List A) → length (select p l) ≤ length l
  unfolding select
  length-select-le [] = omega arith
  length-select-le (x ∷ xs) = ground (arith, length-select-le xs)

  pub select-All : (l : List A) → All (λ x. p x ≡ true) (select p l)
  unfolding select
  select-All [] = tt
  select-All (x ∷ xs) = ground (arith, select-All xs)

module _ {ℓ} {A : Type ℓ} (p q : A → Bool) where
  -- A row that is deleted is not seen, any other is.
  pub select-delete_where_all :
      ((x : A) → p x ≡ true → q x ≡ true) → (l : List A) → select p (delete_where q l) ≡ []
  unfolding select delete_where
  select-delete_where_all h [] = refl
  select-delete_where_all h (x ∷ xs) = ground (arith, h x, select-delete_where_all h xs)

  pub select-delete_where_none :
      ((x : A) → p x ≡ true → q x ≡ false) → (l : List A) → select p (delete_where q l) ≡ select p l
  unfolding select delete_where
  select-delete_where_none h [] = refl
  select-delete_where_none h (x ∷ xs) = ground (arith, h x, select-delete_where_none h xs)

  pub find_row-delete_where_none :
      ((x : A) → p x ≡ true → q x ≡ false)
      → (l : List A) → find_row p (delete_where q l) ≡ find_row p l
  unfolding find_row delete_where
  find_row-delete_where_none h [] = refl
  find_row-delete_where_none h (x ∷ xs) = ground (arith, h x, find_row-delete_where_none h xs)

  pub find_row-delete_where_all :
      ((x : A) → p x ≡ true → q x ≡ true) → (l : List A) → find_row p (delete_where q l) ≡ none
  unfolding find_row delete_where
  find_row-delete_where_all h [] = refl
  find_row-delete_where_all h (x ∷ xs) = ground (arith, h x, find_row-delete_where_all h xs)

  -- `select` with one clause after another.
  pub select-select_imp :
      ((x : A) → p x ≡ true → q x ≡ true) → (l : List A) → select p (select q l) ≡ select p l
  unfolding select
  select-select_imp h [] = refl
  select-select_imp h (x ∷ xs) = ground (arith, h x, select-select_imp h xs)

  -- An update that keeps what the clause reads.
  pub find_row-update_where :
      (f : A → A)
      → ((x : A) → p (f x) ≡ p x)
      → (l : List A)
      → find_row p (update_where q f l) ≡ Option.map (λ x. if q x then f x else x) (find_row p l)
  unfolding find_row update_where
  find_row-update_where f h [] = refl
  find_row-update_where f h (x ∷ xs) = ground (arith, h x, find_row-update_where f h xs)

  pub select-update_where_ne :
      (f : A → A)
      → ((x : A) → p (f x) ≡ p x)
      → ((x : A) → p x ≡ true → q x ≡ false)
      → (l : List A) → select p (update_where q f l) ≡ select p l
  unfolding select update_where
  select-update_where_ne f h n [] = refl
  select-update_where_ne f h n (x ∷ xs) = ground (arith, h x, n x, select-update_where_ne f h n xs)

module _ {ℓ} {A : Type ℓ} where
  pub length-take-le : (n : ℕ) (l : List A) → length (take n l) ≤ n
  length-take-le zero l = omega arith
  length-take-le (suc n) [] = omega arith
  length-take-le (suc n) (x ∷ xs) = omega (arith, length-take-le n xs)

  pub take-All {κ} : (P : A → Type κ) (n : ℕ) (l : List A) → All P l → All P (take n l)
  take-All P zero l h = tt
  take-All P (suc n) [] h = tt
  take-All P (suc n) (x ∷ xs) h = (h.0, take-All P n xs h.1)

  pub sum_of-append : (f : A → ℕ) (l m : List A) → sum_of f (l ++ m) ≡ sum_of f l + sum_of f m
  unfolding sum_of
  sum_of-append f [] m = omega arith
  sum_of-append f (x ∷ xs) m = omega (arith, sum_of-append f xs m)

module _ {ℓ} {A : Type ℓ} (p q : A → Bool) where
  pub any_row-delete_where :
      (l : List A) → any_row p l ≡ false → any_row p (delete_where q l) ≡ false
  unfolding any_row delete_where
  any_row-delete_where [] h = refl
  any_row-delete_where (x ∷ xs) h = ground (arith, any_row-delete_where xs)

  pub any_row-update_where :
      (f : A → A)
      → ((x : A) → p (f x) ≡ p x)
      → (l : List A) → any_row p (update_where q f l) ≡ any_row p l
  unfolding any_row update_where
  any_row-update_where f h [] = refl
  any_row-update_where f h (x ∷ xs) = ground (arith, h x, any_row-update_where f h xs)

  -- A row that is found and not deleted is still found.
  pub find_row-delete_where_keep :
      (l : List A) (a : A)
      → find_row p l ≡ some a
      → q a ≡ false
      → find_row p (delete_where q l) ≡ some a
  unfolding find_row delete_where
  find_row-delete_where_keep [] a h n = cc
  find_row-delete_where_keep (x ∷ xs) a h n = ground (arith, find_row-delete_where_keep xs a)

module _ {ℓ} {A : Type ℓ} (p : A → Bool) where
  pub any_row-delete_where_self : (l : List A) → any_row p (delete_where p l) ≡ false
  unfolding any_row delete_where
  any_row-delete_where_self [] = refl
  any_row-delete_where_self (x ∷ xs) = ground (arith, any_row-delete_where_self xs)

  pub any_row-append : (l : List A) (a : A) → any_row p (l ++ a ∷ []) ≡ (any_row p l || p a)
  unfolding any_row
  any_row-append [] a = ground arith
  any_row-append (x ∷ xs) a = ground (arith, any_row-append xs a)

module _ {ℓ} {A : Type ℓ} (p q : A → Bool) where
  pub any_row-select : (l : List A) → any_row p (select q l) ≡ any_row (λ x. q x && p x) l
  unfolding any_row select
  any_row-select [] = refl
  any_row-select (x ∷ xs) = ground (arith, any_row-select xs)

module _ {ℓ} {A : Type ℓ} (q : A → Bool) (f : A → A) where
  pub update_where-append :
      (l : List A) (a : A)
      → update_where q f (l ++ a ∷ []) ≡ update_where q f l ++ (if q a then f a else a) ∷ []
  unfolding update_where
  update_where-append [] a = refl
  update_where-append (x ∷ l) a = ap (λ m. (if q x then f x else x) ∷ m) (update_where-append l a)
