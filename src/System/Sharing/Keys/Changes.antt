-- ===== src/System/Sharing/Keys/Changes.antt =====
-- The calls that change the state of a contact key, as steps.
use safety_recorder.System.Sharing.Keys.Steps.{computed_key, KeyStep}
use safety_recorder.Repository.Sharing.ContactKeys.{find_key, owned_key}
use safety_recorder.System.Sharing.Keys.Calls.{KeysStep}
use safety_recorder.Repository.Sharing.KeyStates.{
  KeyEnd, set_contact_key_terminal_state, update_contact_public_key, end_row, update_allowed,
  updated_row, end_state,
}
use safety_recorder.Base.{
  ℕ, String, ◌≡◌, ◌⊎◌, true, arith, none, some, update_where, sym, subst, inl, inr, Option-cases,
  Bool-cases,
}
use safety_recorder.Model.{
  Db, after, ContactPublicKey, ok, UpdateContactPublicKeyParams, after_elim, same_key_state,
}

update_rows :
    (now : ℕ) (p : UpdateContactPublicKeyParams) (d d' : Db) (k r : ContactPublicKey)
    → update_contact_public_key now p d ≡ ok (k, d')
    → find_key p.owner_account_id p.public_key_id d ≡ some r
    → (update_allowed p.key_state r.key_state ≡ true)
      × (d'.contact_public_keys
          ≡ update_where
              (owned_key p.owner_account_id p.public_key_id)
              (updated_row now (computed_key p r))
              d.contact_public_keys)
unfolding update_contact_public_key
update_rows now p d d' k r e f = ground arith

update_needs_key :
    (now : ℕ) (p : UpdateContactPublicKeyParams) (d d' : Db) (k : ContactPublicKey)
    → update_contact_public_key now p d ≡ ok (k, d')
    → find_key p.owner_account_id p.public_key_id d ≡ none
    → ⊥
unfolding update_contact_public_key
update_needs_key now p d d' k e f = ground arith

pub update_key-KeysStep :
    (now : ℕ) (p : UpdateContactPublicKeyParams) (d : Db)
    → KeysStep d (after d (update_contact_public_key now p d))
update_key-KeysStep now p d =
    after_elim (KeysStep d) d (update_contact_public_key now p d) KeyStep.same λ k d' e.
      elim (Option-cases (find_key p.owner_account_id p.public_key_id d)) [
        | inl f ↦ absurd (update_needs_key now p d d' k e f)
        | inr (r, f) ↦
            let s = update_rows now p d d' k r e f in
            subst (KeyStep d.contact_public_keys) (sym s.1) (KeyStep.update now p r f s.0)
      ]

end_rows :
    (now : ℕ) (audit : String) (e : KeyEnd) (owner id : String) (d d' : Db) (k : ContactPublicKey)
    → set_contact_key_terminal_state now audit e owner id d ≡ ok (k, d')
    → (d'.contact_public_keys ≡ d.contact_public_keys)
      ⊎ (d'.contact_public_keys
          ≡ update_where (owned_key owner id) (end_row now e) d.contact_public_keys)
unfolding set_contact_key_terminal_state
end_rows now audit e owner id d d' k h = elim (Option-cases (find_key owner id d)) [
  | inl f ↦ absurd (ground arith)
  | inr (r, f) ↦ elim (Bool-cases (same_key_state r.key_state (end_state e))) [
    | inl s ↦ inl (ground arith)
    | inr s ↦ inr (ground arith)
  ]
]

pub end_key-KeysStep :
    (now : ℕ) (audit : String) (e : KeyEnd) (owner id : String) (d : Db)
    → KeysStep d (after d (set_contact_key_terminal_state now audit e owner id d))
end_key-KeysStep now audit e owner id d =
    after_elim (KeysStep d) d (set_contact_key_terminal_state now audit e owner id d) KeyStep.same
      λ k d' h. elim (end_rows now audit e owner id d d' k h) [
        | inl s ↦ subst (KeyStep d.contact_public_keys) (sym s) KeyStep.same
        | inr s ↦ subst (KeyStep d.contact_public_keys) (sym s) (KeyStep.end now e owner id)
      ]
