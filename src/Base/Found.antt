-- ===== src/Base/Found.antt =====
-- The first row that a clause selects, and the highest number among the rows that it selects, after a
-- statement has run on the table.
use Prim.Native.Nat.{ℕ, ◌≤◌}
use mathlib.Core.Path.{◌≡◌, refl}
use mathlib.Core.Bool.{Bool, true, false}
use mathlib.Core.Option.{none, some}
use mathlib.Core.List.{List, [], ◌∷◌, ◌++◌}
use native.Mathlib.Omega.{arith}
use safety_recorder.Base.Tests.{if◌then◌else◌, ltb}
use safety_recorder.Base.Rows.{find_row, any_row, select, update_where, max_of}
use safety_recorder.Base.RowLaws.{find_row_sound}
use safety_recorder.Base.Counts.{
  count_where, any_row_of_count_where, any_row_of_find, none_keyed, update_where-none,
}

module _ {ℓ} {A : Type ℓ} (p : A → Bool) where
  pub find_row-none_of : (l : List A) → any_row p l ≡ false → find_row p l ≡ none
  unfolding find_row any_row
  find_row-none_of [] h = refl
  find_row-none_of (x ∷ l) h = ground (arith, find_row-none_of l)

  -- Where the clause selects one row at most, another clause finds that row only.
  pub find_row-only :
      (q : A → Bool) (l : List A) (a : A)
      → find_row q l ≡ some a
      → p a ≡ true
      → count_where p l ≤ 1
      → find_row p l ≡ some a
  unfolding find_row select
  find_row-only q [] a f h c = cc
  find_row-only q (x ∷ l) a f h c =
      ground (arith, find_row-only q l a, any_row_of_count_where p l, any_row_of_find p q l a)

module _ {ℓ} {A : Type ℓ} (p q : A → Bool) (f : A → A) where
  -- An update of rows that the clause selects neither before nor after.
  pub find_row-update_unseen :
      ((x : A) → q x ≡ true → p x ≡ false)
      → ((x : A) → q x ≡ true → p (f x) ≡ false)
      → (l : List A) → find_row p (update_where q f l) ≡ find_row p l
  unfolding find_row update_where
  find_row-update_unseen h k [] = refl
  find_row-update_unseen h k (x ∷ l) = ground (arith, h x, k x, find_row-update_unseen h k l)

  -- An update after which the clause no longer selects the rows.
  pub find_row-update_keeps :
      ((x : A) → q x ≡ true → p (f x) ≡ false)
      → (l : List A) (a : A) → find_row p l ≡ some a
      → q a ≡ false
      → find_row p (update_where q f l) ≡ some a
  unfolding find_row update_where
  find_row-update_keeps k [] a h n = cc
  find_row-update_keeps k (x ∷ l) a h n = ground (arith, k x, find_row-update_keeps k l a)

  pub any_row-update_hides :
      ((x : A) → q x ≡ true → p (f x) ≡ false)
      → (l : List A) → any_row p l ≡ false
      → any_row p (update_where q f l) ≡ false
  unfolding any_row update_where
  any_row-update_hides k [] h = refl
  any_row-update_hides k (x ∷ l) h = ground (arith, k x, any_row-update_hides k l)

  pub any_row-update_hides_only :
      ((x : A) → q x ≡ true → p (f x) ≡ false)
      → (l : List A) (a : A) → find_row p l ≡ some a
      → q a ≡ true
      → count_where p l ≤ 1
      → any_row p (update_where q f l) ≡ false
  unfolding find_row any_row select update_where
  any_row-update_hides_only k [] a h n c = cc
  any_row-update_hides_only k (x ∷ l) a h n c = ground (
    arith,
    k x,
    any_row-update_hides_only k l a,
    any_row_of_count_where p l,
    any_row-update_hides k l,
  )

  pub max_of-update_where :
      (g : A → ℕ)
      → ((x : A) → p (f x) ≡ p x)
      → ((x : A) → g (f x) ≡ g x)
      → (l : List A) → max_of g (select p (update_where q f l)) ≡ max_of g (select p l)
  unfolding max_of select update_where
  max_of-update_where g h k [] = refl
  max_of-update_where g h k (x ∷ l) = ground (arith, h x, k x, max_of-update_where g h k l)

module _ {ℓ} {A : Type ℓ} (p q key : A → Bool) (f : A → A)
    (narrow : (x : A) → q x ≡ true → key x ≡ true) where
  -- The update of the one row that a key names, where the clause selects that row still or not yet.
  pub find_row-update_found :
      (l : List A) (a : A)
      → find_row q l ≡ some a
      → count_where key l ≤ 1
      → p (f a) ≡ p a
      → p a ≡ false
      → find_row p (update_where q f l) ≡ find_row p l
  unfolding find_row select update_where
  find_row-update_found [] a e u h n = cc
  find_row-update_found (x ∷ l) a e u h n = ground (
    arith,
    narrow x,
    find_row-update_found l a,
    any_row_of_count_where key l,
    none_keyed p q key f narrow l,
    update_where-none p q f l,
  )

  pub find_row-update_only :
      (l : List A) (a : A)
      → find_row q l ≡ some a
      → find_row p l ≡ some a
      → count_where key l ≤ 1
      → p (f a) ≡ true
      → find_row p (update_where q f l) ≡ some (f a)
  unfolding find_row select update_where
  find_row-update_only [] a e o u h = cc
  find_row-update_only (x ∷ l) a e o u h = ground (
    arith,
    narrow x,
    find_row-update_only l a,
    find_row_sound q l a,
    find_row_sound p l a,
    any_row_of_count_where key l,
  )

module _ {ℓ} {A : Type ℓ} (g : A → ℕ) where
  pub max_of-append :
      (l : List A) (a : A)
      → max_of g (l ++ a ∷ []) ≡ (if ltb (max_of g l) (g a) then g a else max_of g l)
  unfolding max_of
  max_of-append [] a = ground arith
  max_of-append (x ∷ l) a = ground (arith, max_of-append l a)
