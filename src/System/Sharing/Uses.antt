-- ===== src/System/Sharing/Uses.antt =====
-- The calls that rely on a contact key, and that none of them relies on an ended one.
use safety_recorder.Repository.Sharing.ContactKeys.{newest_key, newest_key_first}
use safety_recorder.Repository.Sharing.Grants.{create_sharing_grant, is_key_active, grantable}
use safety_recorder.Repository.Sharing.WrappedKeys.{
  create_wrapped_key_record, active_owned_key, wrapping_grant,
}
use safety_recorder.Repository.Sharing.Delivery.{
  get_trusted_contact_wrapped_key_record, get_wrapped_key_record, is_deliverable, is_deliverable_to,
  contact_key, delivering_key,
}
use safety_recorder.System.Sharing.Keys.Ended.{live_key, ended, run-ended}
use safety_recorder.System.{Command, run}
use safety_recorder.Base.{
  ℕ, String, Bool, List, ◌≡◌, true, ◌&&◌, ◌==◌, arith, any_row, some, Bool-cases, subst,
  Option-cases, inl, find_row, inr, find_row_sound, none_keyed, order_by, select, first_row-All,
  IsRow, order_by-All, select-IsRow, select-All, ==_refl,
}
use safety_recorder.Model.{
  Db, ContactPublicKey, SharingGrant, WrappedKeyRecord, ok, CreateSharingGrantParams,
  CreateWrappedKeyRecordParams,
}

-- On the database, a call that succeeds makes a grant for the key `k`, stores a media key that is
-- wrapped for it, or delivers one, to the owner or to a trusted contact.
pub data Uses (d : Db) (k : String) : Type 0 where
  grants :
      (now : ℕ) (id audit : String) (p : CreateSharingGrantParams) (g : SharingGrant) (e : Db)
      → create_sharing_grant now id audit p d ≡ ok (g, e)
      → g.contact_public_key_id ≡ k
      → Uses d k
  wraps :
      (checked now : ℕ) (id audit : String) (p : CreateWrappedKeyRecordParams)
      (w : WrappedKeyRecord) (e : Db)
      → create_wrapped_key_record checked now id audit p d ≡ ok (w, e)
      → w.contact_public_key_id ≡ k
      → Uses d k
  delivers :
      (now : ℕ) (owner id : String) (w : WrappedKeyRecord) (e : Db)
      → get_wrapped_key_record now owner id d ≡ ok (w, e)
      → w.contact_public_key_id ≡ k
      → Uses d k
  delivers_to :
      (now : ℕ) (recipient id : String) (w : WrappedKeyRecord) (e : Db)
      → get_trusted_contact_wrapped_key_record now recipient id d ≡ ok (w, e)
      → w.contact_public_key_id ≡ k
      → Uses d k

abbrev active_key : String → ContactPublicKey → Bool
active_key k r = r.id == k && is_key_active r.key_state

newest-active :
    (p : CreateSharingGrantParams) (d : Db) (r : ContactPublicKey)
    → newest_key (grantable p) d ≡ some r
    → any_row (active_key r.id) d.contact_public_keys ≡ true
newest-active p d r e =
    let l = d.contact_public_keys in
    let sorted = order_by newest_key_first (select (grantable p) l) in
    let row =
      first_row-All (IsRow l) sorted r
        (order_by-All newest_key_first (IsRow l) (select (grantable p) l)
          (select-IsRow (grantable p) l))
        e in
    let good =
      first_row-All (λ x. grantable p x ≡ true) sorted r
        (order_by-All newest_key_first (λ x. grantable p x ≡ true) (select (grantable p) l)
          (select-All (grantable p) l))
        e in
    row (active_key r.id) (ground (arith, ==_refl r.id))

grants-active :
    (now : ℕ) (id audit : String) (p : CreateSharingGrantParams) (d e : Db) (g : SharingGrant)
    → create_sharing_grant now id audit p d ≡ ok (g, e)
    → any_row (active_key g.contact_public_key_id) d.contact_public_keys ≡ true
unfolding create_sharing_grant
grants-active now id audit p d e g h = elim (Option-cases (newest_key (grantable p) d)) [
  | inl f ↦ absurd (ground arith)
  | inr (r, f) ↦ ground (arith, newest-active p d r f)
]

-- A clause that selects only active keys of the identifier.
active_of :
    (k : String) (q : ContactPublicKey → Bool) (l : List ContactPublicKey)
    → ((x : ContactPublicKey) → q x ≡ true → active_key k x ≡ true)
    → any_row q l ≡ true
    → any_row (active_key k) l ≡ true
active_of k q l h a = elim (Bool-cases (any_row (active_key k) l)) [
  | inl e ↦ e
  | inr n ↦ ground (arith, none_keyed q q (active_key k) (λ x. x) h l n)
]

wraps-active :
    (checked now : ℕ) (id audit : String) (p : CreateWrappedKeyRecordParams) (d e : Db)
    (w : WrappedKeyRecord)
    → create_wrapped_key_record checked now id audit p d ≡ ok (w, e)
    → any_row (active_owned_key p.owner_account_id w.contact_public_key_id) d.contact_public_keys
      ≡ true
unfolding create_wrapped_key_record
wraps-active checked now id audit p d e w h =
    elim (Option-cases (find_row (wrapping_grant checked p) d.sharing_grants)) [
      | inl f ↦ absurd (ground arith)
      | inr (g, f) ↦ ground arith
    ]

delivers-active :
    (now : ℕ) (owner id : String) (d e : Db) (w : WrappedKeyRecord)
    → get_wrapped_key_record now owner id d ≡ ok (w, e)
    → any_row (delivering_key w) d.contact_public_keys ≡ true
unfolding get_wrapped_key_record is_deliverable
delivers-active now owner id d e w h =
    let q = λ (r : WrappedKeyRecord).
      r.owner_account_id == owner && (r.id == id && is_deliverable now d r) in
    elim (Option-cases (find_row q d.wrapped_key_records)) [
      | inl f ↦ absurd (ground arith)
      | inr (r, f) ↦ ground (arith, find_row_sound q d.wrapped_key_records r f)
    ]

delivers_to-active :
    (now : ℕ) (recipient id : String) (d e : Db) (w : WrappedKeyRecord)
    → get_trusted_contact_wrapped_key_record now recipient id d ≡ ok (w, e)
    → any_row (contact_key recipient w) d.contact_public_keys ≡ true
unfolding get_trusted_contact_wrapped_key_record is_deliverable_to
delivers_to-active now recipient id d e w h =
    let q = λ (r : WrappedKeyRecord). r.id == id && is_deliverable_to now recipient d r in
    elim (Option-cases (find_row q d.wrapped_key_records)) [
      | inl f ↦ absurd (ground arith)
      | inr (r, f) ↦ ground (arith, find_row_sound q d.wrapped_key_records r f)
    ]

Uses-active : (d : Db) (k : String) → Uses d k → any_row (active_key k) d.contact_public_keys ≡ true
Uses-active d k (Uses.grants now id audit p g e h s) =
    subst (λ i. any_row (active_key i) d.contact_public_keys ≡ true) s
      (grants-active now id audit p d e g h)
Uses-active d k (Uses.wraps checked now id audit p w e h s) =
    subst (λ i. any_row (active_key i) d.contact_public_keys ≡ true) s
      (active_of w.contact_public_key_id
        (active_owned_key p.owner_account_id w.contact_public_key_id) d.contact_public_keys
        (λ x q. ground arith) (wraps-active checked now id audit p d e w h))
Uses-active d k (Uses.delivers now owner id w e h s) =
    subst (λ i. any_row (active_key i) d.contact_public_keys ≡ true) s
      (active_of w.contact_public_key_id (delivering_key w) d.contact_public_keys
        (λ x q. ground arith) (delivers-active now owner id d e w h))
Uses-active d k (Uses.delivers_to now recipient id w e h s) =
    subst (λ i. any_row (active_key i) d.contact_public_keys ≡ true) s
      (active_of w.contact_public_key_id (contact_key recipient w) d.contact_public_keys
        (λ x q. ground arith) (delivers_to-active now recipient id d e w h))

active-live : (k : String) (x : ContactPublicKey) → active_key k x ≡ true → live_key k x ≡ true
active-live k x h = ground arith

-- Once a contact key is replaced, revoked or lost, no call makes a grant for it, stores a media key
-- that is wrapped for it or delivers one, to its owner or to a trusted contact, after any of the
-- modelled writing calls in any order.
pub ended_key_is_unused :
    (hash : String → String) (k : String) (cs : List Command) (d : Db)
    → ended k d.contact_public_keys ≡ true
    → ¬ Uses (run hash cs d) k
ended_key_is_unused hash k cs d h u =
    let l = (run hash cs d).contact_public_keys in
    ground (
      arith,
      run-ended hash k cs d h,
      Uses-active (run hash cs d) k u,
      none_keyed (active_key k) (active_key k) (live_key k) (λ x. x) (active-live k) l,
    )
