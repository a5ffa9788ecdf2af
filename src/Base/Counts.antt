-- ===== src/Base/Counts.antt =====
-- How many rows of a table a clause selects, after a statement has run on it.
use Prim.Native.Nat.{ℕ, ◌+◌, ◌≤◌}
use mathlib.Core.Path.{◌≡◌, subst}
use mathlib.Core.Logic.{inl, inr}
use mathlib.Core.Bool.{Bool, true, false}
use mathlib.Core.Option.{some}
use mathlib.Core.List.{List, [], ◌∷◌, ◌++◌}
use native.Mathlib.Omega.{arith}
use safety_recorder.Base.Tests.{if◌then◌else◌, Bool-cases}
use safety_recorder.Base.Rows.{All, first_row, length, find_row, any_row, select, update_where}

abbrev pub count_where {ℓ} : {A : Type ℓ} → (A → Bool) → List A → ℕ
count_where p l = length (select p l)

module _ {ℓ} {A : Type ℓ} (p : A → Bool) where
  pub count_where-append :
      (l : List A) (a : A) → count_where p (l ++ a ∷ []) ≡ count_where p l + (if p a then 1 else 0)
  unfolding select
  count_where-append [] a = ground arith
  count_where-append (x ∷ l) a = ground (arith, count_where-append l a)

  pub count_where-eq_zero_of : (l : List A) → any_row p l ≡ false → count_where p l ≡ 0
  unfolding select any_row
  count_where-eq_zero_of [] h = omega arith
  count_where-eq_zero_of (x ∷ l) h = ground (arith, count_where-eq_zero_of l)

  pub any_row_of_count_where : (l : List A) → count_where p l ≡ 0 → any_row p l ≡ false
  unfolding select any_row
  any_row_of_count_where [] h = ground arith
  any_row_of_count_where (x ∷ l) h = ground (arith, any_row_of_count_where l)

  pub any_row_of_find :
      (q : A → Bool) (l : List A) (a : A) → find_row q l ≡ some a → p a ≡ true → any_row p l ≡ true
  unfolding find_row any_row
  any_row_of_find q [] a f h = ground arith
  any_row_of_find q (x ∷ l) a f h = ground (arith, any_row_of_find q l a)

module _ {ℓ} {A : Type ℓ} (p q : A → Bool) (f : A → A) where
  -- An update after which the clause selects no row that it did not select before.
  pub count_where-update_where_le :
      ((x : A) → q x ≡ true → p (f x) ≡ true → p x ≡ true)
      → (l : List A) → count_where p (update_where q f l) ≤ count_where p l
  unfolding select update_where
  count_where-update_where_le h [] = omega arith
  count_where-update_where_le h (x ∷ l) = ground (arith, h x, count_where-update_where_le h l)

  -- An update after which the clause selects the rows that it selected before.
  pub count_where-update_where :
      ((x : A) → q x ≡ true → p (f x) ≡ p x)
      → (l : List A) → count_where p (update_where q f l) ≡ count_where p l
  unfolding select update_where
  count_where-update_where h [] = omega arith
  count_where-update_where h (x ∷ l) = ground (arith, h x, count_where-update_where h l)

  pub update_where-none : (l : List A) → any_row q l ≡ false → update_where q f l ≡ l
  unfolding update_where any_row
  update_where-none [] h = ground arith
  update_where-none (x ∷ l) h = ground (arith, update_where-none l)

-- The update of the one row that a key names, as it is found.
module _ {ℓ} {A : Type ℓ} (p q key : A → Bool) (f : A → A)
    (narrow : (x : A) → q x ≡ true → key x ≡ true) where
  pub none_keyed : (l : List A) → any_row key l ≡ false → any_row q l ≡ false
  unfolding any_row
  none_keyed [] h = ground arith
  none_keyed (x ∷ l) h = ground (arith, narrow x, none_keyed l)

  pub count_where-update_found :
      (l : List A) (a : A)
      → find_row q l ≡ some a
      → count_where key l ≤ 1
      → p (f a) ≡ p a
      → count_where p (update_where q f l) ≡ count_where p l
  unfolding find_row select update_where
  count_where-update_found [] a e u h = ground arith
  count_where-update_found (x ∷ l) a e u h = ground (
    arith,
    narrow x,
    count_where-update_found l a,
    any_row_of_count_where key l,
    none_keyed l,
    update_where-none p q f l,
  )

  -- The found row is one that the clause selects after the update only.
  pub count_where-update_gain :
      (l : List A) (a : A)
      → find_row q l ≡ some a
      → count_where key l ≤ 1
      → p (f a) ≡ true
      → p a ≡ false
      → count_where p (update_where q f l) ≡ count_where p l + 1
  unfolding find_row select update_where
  count_where-update_gain [] a e u h n = ground arith
  count_where-update_gain (x ∷ l) a e u h n = ground (
    arith,
    narrow x,
    count_where-update_gain l a,
    any_row_of_count_where key l,
    none_keyed l,
    update_where-none p q f l,
  )

module _ {ℓ} {A : Type ℓ} (p q : A → Bool) (f : A → A) where
  pub any_row-update_where_none :
      ((x : A) → q x ≡ true → p (f x) ≡ true → p x ≡ true)
      → (l : List A) → any_row p l ≡ false
      → any_row p (update_where q f l) ≡ false
  unfolding any_row update_where
  any_row-update_where_none h [] n = ground arith
  any_row-update_where_none h (x ∷ l) n = ground (arith, h x, any_row-update_where_none h l)

module _ {ℓ} {A : Type ℓ} where
  pub All-imp {κ μ} :
      (P : A → Type κ) (Q : A → Type μ) → ((x : A) → P x → Q x) → (l : List A) → All P l → All Q l
  All-imp P Q h [] a = tt
  All-imp P Q h (x ∷ l) a = (h x a.0, All-imp P Q h l a.1)

  pub first_row-All {κ} :
      (P : A → Type κ) (l : List A) (a : A) → All P l → first_row l ≡ some a → P a
  first_row-All P [] a h e = absurd (ground arith)
  first_row-All P (x ∷ l) a h e = subst P (ground arith) h.0

  -- What is true of a row of the table holds of some row of it.
  abbrev pub IsRow : List A → A → Type ℓ
  IsRow l x = (q : A → Bool) → q x ≡ true → any_row q l ≡ true

  pub select-IsRow : (p : A → Bool) (l : List A) → All (IsRow l) (select p l)
  unfolding select any_row
  select-IsRow p [] = tt
  select-IsRow p (x ∷ l) =
      let tail =
        All-imp (IsRow l) (IsRow (x ∷ l)) (λ y h q e. ground (arith, h q e)) (select p l)
          (select-IsRow p l) in
      elim (Bool-cases (p x)) [ inl e ↦ rw e ((λ q h. ground arith), tail) | inr e ↦ rw e tail ]
