-- ===== src/Repository/Sharing/KeyStates.antt =====
-- internal/incidents/sharing.go: the later states of a contact's public key.
use safety_recorder.Base.{
  ℕ, String, Bool, true, false, not, ◌&&◌, ◌||◌, Option, none, some, if◌then◌else◌, any_row,
  update_where,
}
use safety_recorder.Model.{
  ContactPublicKey, UpdateContactPublicKeyParams, ReplaceContactPublicKeyParams, KeyState,
  valid_contact_key_state, terminal_contact_key_state, same_key_state, AuditAction, AuditOutcome,
  Error, Tx, pure, reads, fail_if, writes, ◌>>=◌, ◌>>◌,
}
use safety_recorder.Repository.Audit.{create_sharing_audit_event}
use safety_recorder.Repository.Sharing.ContactKeys.{
  owned_key, get_contact_public_key, next_version, new_contact_key, insert_contact_key,
  mark_open_keys_replaced, key_event,
}

abbrev pub allowed_contact_key_update : KeyState → KeyState → Bool
allowed_contact_key_update current next =
    if same_key_state current next
    then true
    else if terminal_contact_key_state current || terminal_contact_key_state next
    then false
    else same_key_state next KeyState.pending_verification || same_key_state next KeyState.active

abbrev pub with_label : Option String → ContactPublicKey → ContactPublicKey
with_label none r = r
with_label (some label) r = record r { display_label = label }

abbrev pub with_state : Option KeyState → ContactPublicKey → ContactPublicKey
with_state none r = r
with_state (some s) r = record r { key_state = s }

abbrev pub update_allowed : Option KeyState → KeyState → Bool
update_allowed none current = true
update_allowed (some next) current = allowed_contact_key_update current next

-- An update reads the row in one statement and writes the row that it computed in another; they
-- are no transaction.
unfoldable pub read_key_update : UpdateContactPublicKeyParams → Tx ContactPublicKey
unfolding get_contact_public_key
read_key_update p = do
  current ← get_contact_public_key p.owner_account_id p.public_key_id
  fail_if (not (update_allowed p.key_state current.key_state)) Error.invalid_state
  pure (with_state p.key_state (with_label p.display_label current))

abbrev pub updated_row : ℕ → ContactPublicKey → ContactPublicKey → ContactPublicKey
updated_row now computed r = record r {
  display_label = computed.display_label;
  key_state = computed.key_state;
  updated_at = now;
}

unfoldable pub write_key_update :
    ℕ → UpdateContactPublicKeyParams → ContactPublicKey → Tx ContactPublicKey
unfolding get_contact_public_key
write_key_update now p computed = do
  affected ←
      reads (λ d. any_row (owned_key p.owner_account_id p.public_key_id) d.contact_public_keys)
  fail_if (not affected) Error.not_found
  writes (λ d. record d {
    contact_public_keys =
        update_where (owned_key p.owner_account_id p.public_key_id) (updated_row now computed)
          d.contact_public_keys;
  })
  get_contact_public_key p.owner_account_id p.public_key_id

-- The two statements, with no other call in between.
unfoldable pub update_contact_public_key : ℕ → UpdateContactPublicKeyParams → Tx ContactPublicKey
unfolding read_key_update write_key_update
update_contact_public_key now p = do computed ← read_key_update p; write_key_update now p computed

-- `replaced_at` is the second instant that the call reads from the clock.
unfoldable pub replace_contact_public_key :
    ℕ → ℕ → String → String → ReplaceContactPublicKeyParams → Tx ContactPublicKey
unfolding get_contact_public_key insert_contact_key mark_open_keys_replaced
    create_sharing_audit_event
replace_contact_public_key now replaced_at id audit_id p = do
  fail_if (not (valid_contact_key_state p.key_state) || terminal_contact_key_state p.key_state)
      Error.invalid_state
  current ← get_contact_public_key p.owner_account_id p.public_key_id
  fail_if (terminal_contact_key_state current.key_state) Error.invalid_state
  version ← reads (next_version p.owner_account_id current.contact_id)
  let key =
      new_contact_key now id
        (record {
          owner_account_id = p.owner_account_id;
          contact_id = current.contact_id;
          recipient_account_id = current.recipient_account_id;
          display_label = p.display_label;
          wrapping_algorithm = p.wrapping_algorithm;
          public_key = p.public_key;
          public_key_fingerprint = p.public_key_fingerprint;
          key_state = p.key_state;
        })
        current.contact_id version
  insert_contact_key key
  affected ← mark_open_keys_replaced replaced_at p.owner_account_id current.contact_id id
  fail_if (not affected) Error.not_found
  create_sharing_audit_event replaced_at audit_id (
      key_event AuditAction.contact_key_replaced AuditOutcome.replaced p.owner_account_id
        current.contact_id id)
  pure key

-- The states that an owner ends a key with.
pub data KeyEnd : Type 0 where
  revoked lost : KeyEnd

abbrev pub end_state : KeyEnd → KeyState
end_state KeyEnd.revoked = KeyState.revoked
end_state KeyEnd.lost = KeyState.lost

abbrev pub end_action : KeyEnd → AuditAction
end_action KeyEnd.revoked = AuditAction.contact_key_revoked
end_action KeyEnd.lost = AuditAction.contact_key_lost

abbrev pub end_outcome : KeyEnd → AuditOutcome
end_outcome KeyEnd.revoked = AuditOutcome.revoked
end_outcome KeyEnd.lost = AuditOutcome.lost

abbrev pub end_row : ℕ → KeyEnd → ContactPublicKey → ContactPublicKey
end_row now KeyEnd.revoked r = record r {
  key_state = KeyState.revoked;
  updated_at = now;
  revoked_at = some now;
  lost_at = none;
}
end_row now KeyEnd.lost r = record r {
  key_state = KeyState.lost;
  updated_at = now;
  revoked_at = none;
  lost_at = some now;
}

-- The update of a key that is not in the state yet.
unfoldable pub end_open_key :
    ℕ → String → KeyEnd → String → String → ContactPublicKey → Tx ContactPublicKey
unfolding get_contact_public_key create_sharing_audit_event
end_open_key now audit_id end_as owner id current = do
  affected ← reads (λ d. any_row (owned_key owner id) d.contact_public_keys)
  fail_if (not affected) Error.not_found
  writes (λ d. record d {
    contact_public_keys =
        update_where (owned_key owner id) (end_row now end_as) d.contact_public_keys;
  })
  create_sharing_audit_event now audit_id
      (key_event (end_action end_as) (end_outcome end_as) owner current.contact_id current.id)
  get_contact_public_key owner id

unfoldable pub set_contact_key_terminal_state :
    ℕ → String → KeyEnd → String → String → Tx ContactPublicKey
unfolding get_contact_public_key end_open_key
set_contact_key_terminal_state now audit_id end_as owner id = do
  current ← get_contact_public_key owner id
  let same = same_key_state current.key_state (end_state end_as)
  fail_if (terminal_contact_key_state current.key_state && not same) Error.invalid_state
  let ended = end_open_key now audit_id end_as owner id current
  if same then pure current else ended

unfoldable pub revoke_contact_public_key : ℕ → String → String → String → Tx ContactPublicKey
unfolding set_contact_key_terminal_state
revoke_contact_public_key now audit_id owner id =
    set_contact_key_terminal_state now audit_id KeyEnd.revoked owner id

unfoldable pub mark_contact_public_key_lost : ℕ → String → String → String → Tx ContactPublicKey
unfolding set_contact_key_terminal_state
mark_contact_public_key_lost now audit_id owner id =
    set_contact_key_terminal_state now audit_id KeyEnd.lost owner id
