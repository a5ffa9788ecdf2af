-- ===== src/System/Sharing/Delivered.antt =====
-- Wrapped keys are stored and delivered under active grants only.
use safety_recorder.Repository.Sharing.WrappedKeys.{create_wrapped_key_record, wrapping_grant}
use safety_recorder.Repository.Sharing.Delivery.{
  get_trusted_contact_wrapped_key_record, get_wrapped_key_record, is_deliverable, is_deliverable_to,
  contact_grant, delivering_grant,
}
use safety_recorder.System.Sharing.Grants.{
  IsInactiveGrant, active_grant, draws_grant, run-IsInactiveGrant,
}
use safety_recorder.System.{Command, run}
use safety_recorder.Base.{
  ℕ, String, Bool, List, ◌≡◌, true, false, ◌&&◌, ◌==◌, arith, any_row, All, Option-cases,
  none_keyed, subst, find_row, inl, inr, ==_refl, find_row_sound, any_row_of_find,
}
use safety_recorder.Model.{Db, SharingGrant, WrappedKeyRecord, ok, CreateWrappedKeyRecordParams}

-- On the database, a call that succeeds stores a wrapped key under the grant `g`, or delivers one, to
-- the owner or to a trusted contact.
pub data UsesGrant (d : Db) (g : String) : Type 0 where
  wraps :
      (checked now : ℕ) (id audit : String) (p : CreateWrappedKeyRecordParams)
      (w : WrappedKeyRecord) (e : Db)
      → create_wrapped_key_record checked now id audit p d ≡ ok (w, e)
      → w.grant_id ≡ g
      → UsesGrant d g
  delivers :
      (now : ℕ) (owner id : String) (w : WrappedKeyRecord) (e : Db)
      → get_wrapped_key_record now owner id d ≡ ok (w, e)
      → w.grant_id ≡ g
      → UsesGrant d g
  delivers_to :
      (now : ℕ) (recipient id : String) (w : WrappedKeyRecord) (e : Db)
      → get_trusted_contact_wrapped_key_record now recipient id d ≡ ok (w, e)
      → w.grant_id ≡ g
      → UsesGrant d g

wraps_active :
    (checked now : ℕ) (id audit : String) (p : CreateWrappedKeyRecordParams) (d e : Db)
    (w : WrappedKeyRecord)
    → create_wrapped_key_record checked now id audit p d ≡ ok (w, e)
    → any_row (active_grant w.grant_id) d.sharing_grants ≡ true
unfolding create_wrapped_key_record
wraps_active checked now id audit p d e w h =
    elim (Option-cases (find_row (wrapping_grant checked p) d.sharing_grants)) [
      | inl f ↦ absurd (ground arith)
      | inr (g, f) ↦ ground (
        arith,
        ==_refl g.id,
        find_row_sound (wrapping_grant checked p) d.sharing_grants g f,
        any_row_of_find (active_grant g.id) (wrapping_grant checked p) d.sharing_grants g f,
      )
    ]

delivers_active :
    (now : ℕ) (owner id : String) (d e : Db) (w : WrappedKeyRecord)
    → get_wrapped_key_record now owner id d ≡ ok (w, e)
    → any_row (delivering_grant now w) d.sharing_grants ≡ true
unfolding get_wrapped_key_record is_deliverable
delivers_active now owner id d e w h =
    let q = λ (r : WrappedKeyRecord).
      r.owner_account_id == owner && (r.id == id && is_deliverable now d r) in
    elim (Option-cases (find_row q d.wrapped_key_records)) [
      | inl f ↦ absurd (ground arith)
      | inr (r, f) ↦ ground (arith, find_row_sound q d.wrapped_key_records r f)
    ]

delivers_to_active :
    (now : ℕ) (recipient id : String) (d e : Db) (w : WrappedKeyRecord)
    → get_trusted_contact_wrapped_key_record now recipient id d ≡ ok (w, e)
    → any_row (contact_grant now w) d.sharing_grants ≡ true
unfolding get_trusted_contact_wrapped_key_record is_deliverable_to
delivers_to_active now recipient id d e w h =
    let q = λ (r : WrappedKeyRecord). r.id == id && is_deliverable_to now recipient d r in
    elim (Option-cases (find_row q d.wrapped_key_records)) [
      | inl f ↦ absurd (ground arith)
      | inr (r, f) ↦ ground (arith, find_row_sound q d.wrapped_key_records r f)
    ]

-- A clause that selects only active grants of the identifier selects none of an inactive one.
none_of :
    (g : String) (q : SharingGrant → Bool) (d : Db)
    → ((x : SharingGrant) → q x ≡ true → active_grant g x ≡ true)
    → IsInactiveGrant g d
    → any_row q d.sharing_grants ≡ true
    → ⊥
none_of g q d h v a = ground (arith, none_keyed q q (active_grant g) (λ x. x) h d.sharing_grants v)

inactive_grant_unused : (d : Db) (g : String) → IsInactiveGrant g d → ¬ UsesGrant d g
inactive_grant_unused d g v (UsesGrant.wraps checked now id audit p w e h s) =
    none_of g (active_grant w.grant_id) d (λ x q. subst (λ i. active_grant i x ≡ true) s q) v
      (wraps_active checked now id audit p d e w h)
inactive_grant_unused d g v (UsesGrant.delivers now owner id w e h s) =
    none_of g (delivering_grant now w) d
      (λ x q. subst (λ i. active_grant i x ≡ true) s (ground arith)) v
      (delivers_active now owner id d e w h)
inactive_grant_unused d g v (UsesGrant.delivers_to now recipient id w e h s) =
    none_of g (contact_grant now w) d (λ x q. subst (λ i. active_grant i x ≡ true) s (ground arith))
      v (delivers_to_active now recipient id d e w h)

-- Once no grant of an identifier is active, as after its revocation, no call stores a wrapped key under
-- it or delivers one, to the owner or to a trusted contact, after any of the modelled writing calls in
-- any order that do not draw the identifier for another grant.
pub revoked_grant_is_unused :
    (hash : String → String) (g : String) (cs : List Command) (d : Db)
    → IsInactiveGrant g d
    → All (λ c. draws_grant g c ≡ false) cs
    → ¬ UsesGrant (run hash cs d) g
revoked_grant_is_unused hash g cs d v n =
    inactive_grant_unused (run hash cs d) g (run-IsInactiveGrant hash g cs d n v)
