-- ===== src/Repository/Sharing/Race.antt =====
-- internal/incidents/sharing.go: an update of a contact key between whose two statements the key is
-- revoked or lost.
use safety_recorder.Repository.Sharing.ContactKeys.{find_key, is_open_key, owned_key}
use safety_recorder.Repository.Sharing.KeyStates.{
  KeyEnd, read_key_update, set_contact_key_terminal_state, write_key_update, end_row, updated_row,
  end_state,
}
use safety_recorder.Base.{
  ℕ, String, none, some, ◌≡◌, true, arith, refl, inl, inr, update_where, Option-cases, ap,
  any_row-eq-is_some, find_row_sound, ◌∙◌, false, find_row-update_where,
}
use safety_recorder.Model.{
  Db, ok, ContactPublicKey, KeyState, UpdateContactPublicKeyParams, same_key_state,
}

abbrev pub relabel : String → String → String → UpdateContactPublicKeyParams
relabel owner id label = record {
  owner_account_id = owner;
  public_key_id = id;
  display_label = some label;
  key_state = none;
}

read_finds :
    (d d' : Db) (owner id label : String) (computed : ContactPublicKey)
    → read_key_update (relabel owner id label) d ≡ ok (computed, d')
    → (r : ContactPublicKey) × (find_key owner id d ≡ some r) × (r.key_state ≡ computed.key_state)
unfolding read_key_update
read_finds d d' owner id label computed h = elim (Option-cases (find_key owner id d)) [
  | inl f ↦ absurd (ground arith)
  | inr (r, f) ↦ (r, f, ground arith)
]

open-ne-end :
    (s : KeyState) (e : KeyEnd) → is_open_key s ≡ true → same_key_state s (end_state e) ≡ false
open-ne-end s KeyEnd.revoked h = ground arith
open-ne-end s KeyEnd.lost h = ground arith

ended_rows :
    (d d' : Db) (t : ℕ) (audit : String) (e : KeyEnd) (owner id : String) (r k : ContactPublicKey)
    → find_key owner id d ≡ some r
    → same_key_state r.key_state (end_state e) ≡ false
    → set_contact_key_terminal_state t audit e owner id d ≡ ok (k, d')
    → d'.contact_public_keys ≡ update_where (owned_key owner id) (end_row t e) d.contact_public_keys
unfolding set_contact_key_terminal_state
ended_rows d d' t audit e owner id r k f n h = ground arith

end_row-owned :
    (t : ℕ) (e : KeyEnd) (owner id : String) (x : ContactPublicKey)
    → owned_key owner id (end_row t e x) ≡ owned_key owner id x
end_row-owned t KeyEnd.revoked owner id x = refl
end_row-owned t KeyEnd.lost owner id x = refl

ended_finds :
    (d d' : Db) (t : ℕ) (e : KeyEnd) (owner id : String) (r : ContactPublicKey)
    → find_key owner id d ≡ some r
    → d'.contact_public_keys ≡ update_where (owned_key owner id) (end_row t e) d.contact_public_keys
    → find_key owner id d' ≡ some (end_row t e r)
ended_finds d d' t e owner id r f s = ground (
  arith,
  find_row_sound (owned_key owner id) d.contact_public_keys r f,
  find_row-update_where (owned_key owner id) (owned_key owner id) (end_row t e)
      (end_row-owned t e owner id) d.contact_public_keys,
)

abbrev pub stored_update : ℕ → UpdateContactPublicKeyParams → ContactPublicKey → Db → Db
stored_update u p computed d = record d {
  contact_public_keys =
      update_where (owned_key p.owner_account_id p.public_key_id) (updated_row u computed)
        d.contact_public_keys;
}

write_stores :
    (d : Db) (u : ℕ) (p : UpdateContactPublicKeyParams) (computed r : ContactPublicKey)
    → find_key p.owner_account_id p.public_key_id d ≡ some r
    → write_key_update u p computed d ≡ ok (updated_row u computed r, stored_update u p computed d)
unfolding write_key_update
write_stores d u p computed r f =
    let q = owned_key p.owner_account_id p.public_key_id in
    ground (
      arith,
      any_row-eq-is_some q d.contact_public_keys,
      find_row_sound q d.contact_public_keys r f,
      find_row-update_where q q (updated_row u computed) (λ x. refl) d.contact_public_keys,
    )

-- A call that changes a key's label reads a key that is open; then the key is revoked or lost; then the
-- call writes. It succeeds, and the key is open again, with the state that the call has read.
pub stale_update_reopens_key :
    (d d' e : Db) (t u : ℕ) (audit label : String) (way : KeyEnd) (owner id : String)
    (computed k : ContactPublicKey)
    → read_key_update (relabel owner id label) d ≡ ok (computed, e)
    → is_open_key computed.key_state ≡ true
    → set_contact_key_terminal_state t audit way owner id d ≡ ok (k, d')
    → (r : ContactPublicKey) × (write_key_update u (relabel owner id label) computed d'
        ≡ ok (r, stored_update u (relabel owner id label) computed d'))
      × (is_open_key r.key_state ≡ true)
stale_update_reopens_key d d' e t u audit label way owner id computed k read opens ended =
    let f = read_finds d e owner id label computed read in
    let n = open-ne-end f.0.key_state way (ap is_open_key f.2 ∙ opens) in
    let rows = ended_rows d d' t audit way owner id f.0 k f.1 n ended in
    (
      updated_row u computed (end_row t way f.0),
      write_stores d' u (relabel owner id label) computed (end_row t way f.0)
          (ended_finds d d' t way owner id f.0 f.1 rows),
      opens,
    )
