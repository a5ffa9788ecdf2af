-- ===== src/System/Sharing/Keys/Steps.antt =====
-- What a call may do to the table of contact keys, as a step relation.
use safety_recorder.System.Sharing.Keys.Defs.{highest, named_key}
use safety_recorder.Repository.Sharing.ContactKeys.{
  of_contact, owned_key, same_version, superseded, replaced_row, is_open_key,
}
use safety_recorder.Repository.Sharing.KeyStates.{
  with_label, with_state, update_allowed, updated_row, KeyEnd, end_row,
}
use safety_recorder.Model.{ContactPublicKey, UpdateContactPublicKeyParams, valid_contact_key_state}
use safety_recorder.Base.{
  ℕ, String, List, [], ◌∷◌, ◌++◌, ◌≡◌, true, false, some, any_row, find_row, update_where, ◌+◌,
}

-- The rows after an insert with the open keys of the contact replaced.
abbrev pub superseding : ℕ → ContactPublicKey → List ContactPublicKey → List ContactPublicKey
superseding now r l =
    update_where (superseded r.owner_account_id r.contact_id r.id) (replaced_row now r.id)
      (l ++ r ∷ [])

abbrev pub computed_key : UpdateContactPublicKeyParams → ContactPublicKey → ContactPublicKey
computed_key p r = with_state p.key_state (with_label p.display_label r)

-- An inserted row keeps the constraints of the table.
pub record IsNewKey (r : ContactPublicKey) (l : List ContactPublicKey) : Type 0 where
  pub fresh : any_row (named_key r.id) l ≡ false
  pub next : any_row (same_version r) l ≡ false
  pub valid : valid_contact_key_state r.key_state ≡ true
  pub opens : is_open_key r.key_state ≡ true

pub data KeyStep (l : List ContactPublicKey) : List ContactPublicKey → Type 0 where
  same : KeyStep l l
  -- the first key of a contact
  insert : (r : ContactPublicKey) → IsNewKey r l → r.version ≡ 1 → KeyStep l (l ++ r ∷ [])
  -- a further key of a contact
  supersede :
      (now : ℕ) (r : ContactPublicKey)
      → IsNewKey r l
      → r.version ≡ highest r.owner_account_id r.contact_id l + 1
      → any_row (of_contact r.owner_account_id r.contact_id) l ≡ true
      → KeyStep l (superseding now r l)
  update :
      (now : ℕ) (p : UpdateContactPublicKeyParams) (r : ContactPublicKey)
      → find_row (owned_key p.owner_account_id p.public_key_id) l ≡ some r
      → update_allowed p.key_state r.key_state ≡ true
      → KeyStep l (
          update_where
            (owned_key p.owner_account_id p.public_key_id)
            (updated_row now (computed_key p r))
            l)
  end :
      (now : ℕ) (e : KeyEnd) (owner id : String)
      → KeyStep l (update_where (owned_key owner id) (end_row now e) l)
