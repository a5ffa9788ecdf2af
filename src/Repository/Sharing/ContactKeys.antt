-- ===== src/Repository/Sharing/ContactKeys.antt =====
-- internal/incidents/sharing.go: reading and creating the public keys of an account's contacts.
use safety_recorder.Base.{
  ℕ, ◌+◌, String, Bool, true, false, not, ◌&&◌, ◌||◌, Option, none, some, List, [], ◌∷◌, ◌++◌, ◌==◌,
  if◌then◌else◌, find_row, any_row, select, update_where, order_by, first_row, max_of, leb, eqb,
  text_le,
}
use safety_recorder.DbTime.{db_time_le}
use safety_recorder.Model.{
  ContactPublicKey, CreateContactPublicKeyParams, KeyState, valid_contact_key_state,
  terminal_contact_key_state, AuditAction, AuditOutcome, SharingAuditEventParams, Db, Error, Tx,
  pure, reads, or_fail, fail_if, writes, ◌>>=◌, ◌>>◌,
}
use safety_recorder.Repository.Audit.{create_sharing_audit_event}
use safety_recorder.Repository.Constraints.{has_account, length_within}
use safety_recorder.Repository.Sharing.Accounts.{require_active_account}

abbrev pub owned_key : String → String → ContactPublicKey → Bool
owned_key owner id r = r.owner_account_id == owner && r.id == id

abbrev pub of_contact : String → String → ContactPublicKey → Bool
of_contact owner contact r = r.owner_account_id == owner && r.contact_id == contact

abbrev pub find_key : String → String → Db → Option ContactPublicKey
find_key owner id d = find_row (owned_key owner id) d.contact_public_keys

unfoldable pub get_contact_public_key : String → String → Tx ContactPublicKey
get_contact_public_key owner id = do or_fail (← reads (find_key owner id)) Error.not_found

-- `ORDER BY contact_id, version, created_at, id`.
abbrev pub contact_key_order : ContactPublicKey → ContactPublicKey → Bool
contact_key_order a b =
    if not (a.contact_id == b.contact_id)
    then text_le a.contact_id b.contact_id
    else if not (eqb a.version b.version)
    then leb a.version b.version
    else if not (eqb a.created_at b.created_at)
    then db_time_le a.created_at b.created_at
    else text_le a.id b.id

unfoldable pub list_contact_public_keys : String → Tx (List ContactPublicKey)
list_contact_public_keys owner = reads (λ d.
    order_by contact_key_order (select (λ r. r.owner_account_id == owner) d.contact_public_keys))

-- `ORDER BY version DESC, created_at DESC, id DESC`.
abbrev pub newest_key_first : ContactPublicKey → ContactPublicKey → Bool
newest_key_first a b =
    if not (eqb a.version b.version)
    then leb b.version a.version
    else if not (eqb a.created_at b.created_at)
    then db_time_le b.created_at a.created_at
    else text_le b.id a.id

abbrev pub newest_key : (ContactPublicKey → Bool) → Db → Option ContactPublicKey
newest_key p d = first_row (order_by newest_key_first (select p d.contact_public_keys))

-- `COALESCE(MAX(version), 0) + 1`.
abbrev pub next_version : String → String → Db → ℕ
next_version owner contact d =
    max_of (λ (r : ContactPublicKey). r.version)
      (select (of_contact owner contact) d.contact_public_keys)
    + 1

unfoldable pub require_recipient : String → String → Tx (Unit {0})
unfolding require_active_account
require_recipient owner recipient =
    if recipient == ""
    then pure tt
    else (do fail_if (owner == recipient) Error.invalid_state; require_active_account recipient)

unfoldable pub contact_recipient : String → String → Tx String
contact_recipient owner contact = do
  newest ← or_fail (← reads (newest_key (of_contact owner contact))) Error.not_found
  pure newest.recipient_account_id

abbrev pub new_contact_key :
    ℕ → String → CreateContactPublicKeyParams → String → ℕ → ContactPublicKey
new_contact_key now id p contact version = record {
  id = id;
  owner_account_id = p.owner_account_id;
  contact_id = contact;
  recipient_account_id = p.recipient_account_id;
  version = version;
  display_label = p.display_label;
  wrapping_algorithm = p.wrapping_algorithm;
  public_key = p.public_key;
  public_key_fingerprint = p.public_key_fingerprint;
  key_state = p.key_state;
  created_at = now;
  updated_at = now;
  revoked_at = none;
  replaced_at = none;
  lost_at = none;
  replaced_by_public_key_id = "";
}

abbrev pub same_version : ContactPublicKey → ContactPublicKey → Bool
same_version r x = of_contact r.owner_account_id r.contact_id x && eqb x.version r.version

-- Does the insert keep the constraints of the table?
unfoldable pub contact_key_row_ok : ContactPublicKey → Db → Bool
contact_key_row_ok r d =
    not (any_row (λ (x : ContactPublicKey). x.id == r.id) d.contact_public_keys)
    && not (any_row (same_version r) d.contact_public_keys)
    && has_account r.owner_account_id d
    && (r.recipient_account_id == "" || has_account r.recipient_account_id d)
    && not (eqb r.version 0)
    && length_within 80 r.wrapping_algorithm
    && length_within 4096 r.public_key
    && length_within 256 r.public_key_fingerprint
    && valid_contact_key_state r.key_state

unfoldable pub insert_contact_key : ContactPublicKey → Tx (Unit {0})
insert_contact_key r = do
  row_ok ← reads (contact_key_row_ok r)
  fail_if (not row_ok) Error.not_found
  writes (λ d. record d { contact_public_keys = d.contact_public_keys ++ r ∷ [] })

-- `key_state IN ('pending_verification', 'active')`.
abbrev pub is_open_key : KeyState → Bool
is_open_key KeyState.pending_verification = true
is_open_key KeyState.active = true
is_open_key _ = false

abbrev pub superseded : String → String → String → ContactPublicKey → Bool
superseded owner contact replacement r =
    of_contact owner contact r && not (r.id == replacement) && is_open_key r.key_state

abbrev pub replaced_row : ℕ → String → ContactPublicKey → ContactPublicKey
replaced_row now replacement r = record r {
  key_state = KeyState.replaced;
  updated_at = now;
  replaced_at = some now;
  replaced_by_public_key_id = replacement;
}

-- It returns whether rows were affected.
unfoldable pub mark_open_keys_replaced : ℕ → String → String → String → Tx Bool
mark_open_keys_replaced now owner contact replacement = do
  affected ← reads (λ d. any_row (superseded owner contact replacement) d.contact_public_keys)
  writes (λ d. record d {
    contact_public_keys =
        update_where (superseded owner contact replacement) (replaced_row now replacement)
          d.contact_public_keys;
  })
  pure affected

abbrev pub key_event :
    AuditAction → AuditOutcome → String → String → String → SharingAuditEventParams
key_event action outcome owner contact key = record {
  owner_account_id = owner;
  actor_account_id = owner;
  action = action;
  outcome_category = outcome;
  incident_id = "";
  stream_id = "";
  grant_id = "";
  contact_id = contact;
  contact_public_key_id = key;
  wrapped_key_id = "";
  deletion_decision_id = "";
}

-- The key for a new contact, whose identifier is drawn.
unfoldable pub create_first_key :
    ℕ → String → String → String → CreateContactPublicKeyParams → Tx ContactPublicKey
unfolding require_recipient insert_contact_key create_sharing_audit_event
create_first_key now contact id audit_id p = do
  require_recipient p.owner_account_id p.recipient_account_id
  let key = new_contact_key now id p contact 1
  insert_contact_key key
  create_sharing_audit_event now audit_id (
      key_event AuditAction.contact_key_registered AuditOutcome.created p.owner_account_id contact
        id)
  pure key

-- The recipient that a further key of a contact is for: that of its newest key, if none is given.
abbrev pub with_recipient : CreateContactPublicKeyParams → String → CreateContactPublicKeyParams
with_recipient p known =
    if p.recipient_account_id == "" then record p { recipient_account_id = known } else p

-- The next version of a known contact's key replaces the open ones.
unfoldable pub create_next_key :
    ℕ → String → String → CreateContactPublicKeyParams → Tx ContactPublicKey
unfolding contact_recipient require_recipient insert_contact_key mark_open_keys_replaced
    create_sharing_audit_event
create_next_key now id audit_id p = do
  known ← contact_recipient p.owner_account_id p.contact_id
  fail_if
      (not (p.recipient_account_id == "")
        && (not (known == "") && not (p.recipient_account_id == known)))
      Error.invalid_state
  let q = with_recipient p known
  require_recipient q.owner_account_id q.recipient_account_id
  version ← reads (next_version p.owner_account_id p.contact_id)
  fail_if (eqb version 1) Error.not_found
  let key = new_contact_key now id q p.contact_id version
  insert_contact_key key
  mark_open_keys_replaced now p.owner_account_id p.contact_id id
  create_sharing_audit_event now audit_id (
      key_event AuditAction.contact_key_replaced AuditOutcome.replaced p.owner_account_id
        p.contact_id id)
  pure key

-- `contact` is the identifier that is drawn for a contact that the call does not name.
unfoldable pub create_key_version :
    ℕ → String → String → String → CreateContactPublicKeyParams → Tx ContactPublicKey
create_key_version now contact id audit_id p =
    if p.contact_id == ""
    then create_first_key now contact id audit_id p
    else create_next_key now id audit_id p

unfoldable pub create_contact_public_key :
    ℕ → String → String → String → CreateContactPublicKeyParams → Tx ContactPublicKey
create_contact_public_key now contact id audit_id p = do
  fail_if (not (valid_contact_key_state p.key_state) || terminal_contact_key_state p.key_state)
      Error.invalid_state
  create_key_version now contact id audit_id p
