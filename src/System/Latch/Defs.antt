-- ===== src/System/Latch/Defs.antt =====
-- Incidents that are known and have reached a state, and what the updates of their table keep.
use safety_recorder.Repository.Deletion.Process.{tombstone_row}
use safety_recorder.Repository.Deletion.Request.{set_deletion_state}
use safety_recorder.Repository.Incidents.{close_row}
use safety_recorder.Repository.Constraints.{has_incident}
use safety_recorder.Base.{
  ℕ, String, Bool, true, false, not, List, [], ◌∷◌, ◌++◌, ◌≡◌, refl, ◌==◌, ◌&&◌, some, arith,
  Bool-cases, any_row, find_row, update_where, any_row-update_where, ap, inl, inr, eq_of_==,
  any_row-append,
}
use safety_recorder.Model.{Incident, DeletionState, is_active}

-- No update of an incident makes it live again.
pub record IsLatch (live : Incident → Bool) : Type 0 where
  pub closing : (now : ℕ) (x : Incident) → live x ≡ false → live (close_row now x) ≡ false
  pub marking :
      (now : ℕ) (s : DeletionState) (x : Incident)
      → is_active s ≡ false
      → live x ≡ false
      → live (set_deletion_state now s x) ≡ false
  pub ending : (now : ℕ) (x : Incident) → live x ≡ false → live (tombstone_row now x) ≡ false

abbrev pub live_row : (Incident → Bool) → String → Incident → Bool
live_row live i r = r.id == i && live r

-- Is the incident known, and not live?
abbrev pub latched_in : (Incident → Bool) → String → List Incident → Bool
latched_in live i l = has_incident i l && not (any_row (live_row live i) l)

module _ (live : Incident → Bool) where
  pub latched_in-append :
      (i : String) (l : List Incident) (a : Incident)
      → has_incident a.id l ≡ false
      → latched_in live i l ≡ true
      → latched_in live i (l ++ a ∷ []) ≡ true
  latched_in-append i l a new h = elim (Bool-cases (a.id == i)) [
    | inl e ↦ ground (arith, ap (λ s. has_incident s l) (eq_of_== a.id i e))
    | inr n ↦ ground (
      arith,
      any_row-append (λ (r : Incident). r.id == i) l a,
      any_row-append (live_row live i) l a,
    )
  ]

  any_live-update_where :
      (i : String) (q : Incident → Bool) (f : Incident → Incident) (l : List Incident)
      → ((x : Incident) → (f x).id ≡ x.id)
      → ((x : Incident) → live x ≡ false → live (f x) ≡ false)
      → any_row (live_row live i) l ≡ false
      → any_row (live_row live i) (update_where q f l) ≡ false
  unfolding any_row update_where
  any_live-update_where i q f [] key keep h = refl
  any_live-update_where i q f (x ∷ l) key keep h =
      ground
        (arith, key x, keep x, ap (λ s. s == i) (key x), any_live-update_where i q f l key keep)

  pub latched_in-update_where :
      (i : String) (q : Incident → Bool) (f : Incident → Incident) (l : List Incident)
      → ((x : Incident) → (f x).id ≡ x.id)
      → ((x : Incident) → live x ≡ false → live (f x) ≡ false)
      → latched_in live i l ≡ true
      → latched_in live i (update_where q f l) ≡ true
  latched_in-update_where i q f l key keep h = ground (
    arith,
    any_live-update_where i q f l key keep,
    any_row-update_where (λ (r : Incident). r.id == i) q f (λ x. ap (λ s. s == i) (key x)) l,
  )

  any_live_of_find :
      (j : String) (l : List Incident) (r : Incident)
      → find_row (λ (x : Incident). x.id == j) l ≡ some r
      → live r ≡ true
      → any_row (live_row live j) l ≡ true
  unfolding find_row any_row
  any_live_of_find j [] r f a = cc
  any_live_of_find j (x ∷ l) r f a = ground (arith, any_live_of_find j l r)

  -- What an insert for the incident `j` reads.
  pub latched_in-find :
      (i j : String) (l : List Incident) (r : Incident)
      → latched_in live i l ≡ true
      → (j == i) ≡ true
      → find_row (λ (x : Incident). x.id == j) l ≡ some r
      → live r ≡ false
  latched_in-find i j l r h e f = elim (Bool-cases (live r)) [
    | inr n ↦ n
    | inl a ↦
        ground (
          arith,
          any_live_of_find j l r f a,
          ap (λ s. any_row (live_row live s) l) (eq_of_== j i e),
        )
  ]
