-- ===== src/System/Sharing/Keys/Ended.antt =====
-- Keys that are known and ended: replaced, revoked or lost. No step opens them again.
use safety_recorder.System.Sharing.Keys.Run.{exec-KeysStep}
use safety_recorder.Repository.Sharing.ContactKeys.{owned_key, superseded, replaced_row}
use safety_recorder.Repository.Sharing.KeyStates.{
  KeyEnd, update_allowed, with_state, with_label, updated_row, end_row,
}
use safety_recorder.System.Sharing.Keys.Defs.{named_key}
use safety_recorder.System.Sharing.Keys.Steps.{KeyStep, computed_key}
use safety_recorder.System.{run, Command, exec}
use safety_recorder.Base.{
  none, some, String, Bool, List, ◌≡◌, true, false, not, ◌&&◌, ◌==◌, arith, any_row, refl, inl, inr,
  Bool-cases, eq_of_==, ap, Option, find_row, update_where, any_row-update_where, ◌++◌,
  any_row-update_where_none, some, find_row_sound, ◌∷◌, [], any_row_of_find, any_row-append,
}
use safety_recorder.Model.{ContactPublicKey, KeyState, terminal_contact_key_state, Db}

abbrev pub live_key : String → ContactPublicKey → Bool
live_key k r = r.id == k && not (terminal_contact_key_state r.key_state)

-- Is there a key of this identifier, and is it ended?
abbrev pub ended : String → List ContactPublicKey → Bool
ended k l = any_row (named_key k) l && not (any_row (live_key k) l)

module _ (k : String) (l : List ContactPublicKey) (h : ended k l ≡ true) where
  append-ended :
      (r : ContactPublicKey) → any_row (named_key r.id) l ≡ false → ended k (l ++ r ∷ []) ≡ true
  append-ended r fresh = elim (Bool-cases (r.id == k)) [
    | inl e ↦ ground (arith, ap (λ s. any_row (named_key s) l) (eq_of_== r.id k e))
    | inr n ↦ ground (arith, any_row-append (named_key k) l r, any_row-append (live_key k) l r)
  ]

  -- An update that opens no ended key of this identifier.
  update-ended :
      (q : ContactPublicKey → Bool) (f : ContactPublicKey → ContactPublicKey)
      → ((x : ContactPublicKey) → (f x).id ≡ x.id)
      → ((x : ContactPublicKey) → q x ≡ true → live_key k (f x) ≡ true → live_key k x ≡ true)
      → ended k (update_where q f l) ≡ true
  update-ended q f same keep = ground (
    arith,
    any_row-update_where (named_key k) q f (λ x. ap (λ s. s == k) (same x)) l,
    any_row-update_where_none (live_key k) q f keep l,
  )

  -- An ended key that an update finds stays ended.
  found_ended :
      (owner id : String) (r : ContactPublicKey)
      → find_row (owned_key owner id) l ≡ some r
      → (id == k) ≡ true
      → terminal_contact_key_state r.key_state ≡ true
  found_ended owner id r f e = elim (Bool-cases (terminal_contact_key_state r.key_state)) [
    | inl t ↦ t
    | inr n ↦ ground (
      arith,
      find_row_sound (owned_key owner id) l r f,
      any_row_of_find (live_key k) (owned_key owner id) l r f,
      eq_of_== r.id id,
      ap (λ s. s == k)
          (eq_of_== r.id id (ground (arith, find_row_sound (owned_key owner id) l r f))),
    )
  ]

-- What an update computes from an ended key is ended.
computed_ended :
    (s : Option KeyState) (label : Option String) (r : ContactPublicKey)
    → update_allowed s r.key_state ≡ true
    → terminal_contact_key_state r.key_state ≡ true
    → terminal_contact_key_state (with_state s (with_label label r)).key_state ≡ true
computed_ended none none r h t = ground arith
computed_ended none (some label) r h t = ground arith
computed_ended (some s) none r h t = ground arith
computed_ended (some s) (some label) r h t = ground arith

pub KeyStep-ended :
    {l m : List ContactPublicKey} (k : String) → KeyStep l m → ended k l ≡ true → ended k m ≡ true
KeyStep-ended k KeyStep.same h = h
KeyStep-ended {l} k (KeyStep.insert r n v) h = append-ended k l h r n.fresh
KeyStep-ended {l} k (KeyStep.supersede now r n v c) h =
    update-ended k (l ++ r ∷ []) (append-ended k l h r n.fresh)
      (superseded r.owner_account_id r.contact_id r.id) (replaced_row now r.id) (λ x. refl)
      (λ x q e. absurd (ground arith))
KeyStep-ended {l} k (KeyStep.update now p r f a) h =
    update-ended k l h (owned_key p.owner_account_id p.public_key_id)
      (updated_row now (computed_key p r)) (λ x. refl)
      λ x q e. absurd (
        ground (
          arith,
          found_ended k l h p.owner_account_id p.public_key_id r f,
          computed_ended p.key_state p.display_label r a,
          ap (λ s. s == k) (eq_of_== x.id p.public_key_id (ground arith)),
        ))
KeyStep-ended {l} k (KeyStep.end now KeyEnd.revoked owner id) h =
    update-ended k l h (owned_key owner id) (end_row now KeyEnd.revoked) (λ x. refl)
      (λ x q e. absurd (ground arith))
KeyStep-ended {l} k (KeyStep.end now KeyEnd.lost owner id) h =
    update-ended k l h (owned_key owner id) (end_row now KeyEnd.lost) (λ x. refl)
      (λ x q e. absurd (ground arith))

pub run-ended :
    (hash : String → String) (k : String) (cs : List Command) (d : Db)
    → ended k d.contact_public_keys ≡ true
    → ended k (run hash cs d).contact_public_keys ≡ true
unfolding run
run-ended hash k [] d h = h
run-ended hash k (c ∷ cs) d h =
    run-ended hash k cs (exec hash c d) (KeyStep-ended k (exec-KeysStep hash c d) h)
