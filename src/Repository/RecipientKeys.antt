-- ===== src/Repository/RecipientKeys.antt =====
-- internal/incidents/account_recipient_keys.go: the public keys of an account and its devices.
use safety_recorder.Base.{
  ℕ, ◌+◌, String, Bool, true, false, not, ◌&&◌, ◌||◌, Option, none, some, List, [], ◌∷◌, ◌++◌, ◌==◌,
  if◌then◌else◌, find_row, any_row, select, update_where, order_by, max_of, leb, eqb, text_le,
}
use safety_recorder.DbTime.{db_time_le}
use safety_recorder.Model.{
  AccountRecipientKey, CreateAccountRecipientKeyParams, UpdateAccountRecipientKeyParams,
  ReplaceAccountRecipientKeyParams, KeyState, valid_account_recipient_type,
  valid_account_recipient_key_state, terminal_account_recipient_key_state, same_key_state, Db,
  Error, Tx, pure, reads, or_fail, fail_if, writes, ◌>>=◌, ◌>>◌,
}
use safety_recorder.Repository.Constraints.{has_account, length_within}
use safety_recorder.Repository.Sharing.Grants.{is_key_active}
use safety_recorder.Repository.Sharing.KeyStates.{KeyEnd, end_state}

abbrev pub owned_recipient_key : String → String → AccountRecipientKey → Bool
owned_recipient_key owner id r = r.owner_account_id == owner && r.id == id

abbrev pub of_recipient : String → String → AccountRecipientKey → Bool
of_recipient owner recipient r = r.owner_account_id == owner && r.recipient_id == recipient

abbrev pub new_recipient_key :
    ℕ → String → CreateAccountRecipientKeyParams → String → ℕ → AccountRecipientKey
new_recipient_key now id p recipient version = record {
  id = id;
  owner_account_id = p.owner_account_id;
  recipient_id = recipient;
  recipient_type = p.recipient_type;
  key_id = p.key_id;
  version = version;
  display_label = p.display_label;
  scheme = p.scheme;
  suite_id = p.suite_id;
  public_key = p.public_key;
  public_key_fingerprint = p.public_key_fingerprint;
  key_state = p.key_state;
  created_at = now;
  updated_at = now;
  revoked_at = none;
  replaced_at = none;
  lost_at = none;
  replaced_by_recipient_key_id = "";
}

abbrev pub same_key_version : AccountRecipientKey → AccountRecipientKey → Bool
same_key_version r x = of_recipient r.owner_account_id r.recipient_id x && eqb x.version r.version

abbrev pub same_key_id : AccountRecipientKey → AccountRecipientKey → Bool
same_key_id r x = x.owner_account_id == r.owner_account_id && x.key_id == r.key_id

-- The constraints of migrations/013_account_recipient_keys.sql.
unfoldable pub recipient_key_row_ok : AccountRecipientKey → Db → Bool
recipient_key_row_ok r d =
    not (any_row (λ (x : AccountRecipientKey). x.id == r.id) d.account_recipient_keys)
    && not (any_row (same_key_version r) d.account_recipient_keys)
    && not (any_row (same_key_id r) d.account_recipient_keys)
    && has_account r.owner_account_id d
    && valid_account_recipient_type r.recipient_type
    && length_within 255 r.key_id
    && not (eqb r.version 0)
    && length_within 120 r.scheme
    && length_within 160 r.suite_id
    && length_within 4096 r.public_key
    && length_within 256 r.public_key_fingerprint
    && valid_account_recipient_key_state r.key_state

unfoldable pub insert_recipient_key : AccountRecipientKey → Tx (Unit {0})
insert_recipient_key r = do
  row_ok ← reads (recipient_key_row_ok r)
  fail_if (not row_ok) Error.duplicate
  writes (λ d. record d { account_recipient_keys = d.account_recipient_keys ++ r ∷ [] })

abbrev pub named_or : String → String → String
named_or name drawn = if name == "" then drawn else name

-- `recipient` is the identifier that is drawn for a recipient that the call does not name.
unfoldable pub create_account_recipient_key :
    ℕ → String → String → CreateAccountRecipientKeyParams → Tx AccountRecipientKey
unfolding insert_recipient_key
create_account_recipient_key now recipient id p = do
  let recipient_id = named_or p.recipient_id recipient
  existing ←
      reads (λ d. any_row (of_recipient p.owner_account_id recipient_id) d.account_recipient_keys)
  fail_if existing Error.duplicate
  insert_recipient_key (new_recipient_key now id p recipient_id 1)
  pure (new_recipient_key now id p recipient_id 1)

-- `ORDER BY recipient_type, recipient_id, version, created_at, id`.
abbrev pub recipient_key_order : AccountRecipientKey → AccountRecipientKey → Bool
recipient_key_order a b =
    if not (a.recipient_type == b.recipient_type)
    then text_le a.recipient_type b.recipient_type
    else if not (a.recipient_id == b.recipient_id)
    then text_le a.recipient_id b.recipient_id
    else if not (eqb a.version b.version)
    then leb a.version b.version
    else if not (eqb a.created_at b.created_at)
    then db_time_le a.created_at b.created_at
    else text_le a.id b.id

unfoldable pub list_account_recipient_keys : String → Tx (List AccountRecipientKey)
list_account_recipient_keys owner = reads (λ d.
    order_by recipient_key_order
      (select (λ r. r.owner_account_id == owner) d.account_recipient_keys))

unfoldable pub get_account_recipient_key : String → String → Tx AccountRecipientKey
get_account_recipient_key owner id = do
  or_fail (← reads (λ d. find_row (owned_recipient_key owner id) d.account_recipient_keys))
      Error.not_found

unfoldable pub get_active_account_recipient_key : String → String → Tx AccountRecipientKey
get_active_account_recipient_key owner id = do
  or_fail
      (← reads (λ d.
        find_row (λ r. owned_recipient_key owner id r && is_key_active r.key_state)
          d.account_recipient_keys))
      Error.not_found

-- Only a pending key becomes active.
abbrev pub allowed_account_recipient_key_update : KeyState → KeyState → Bool
allowed_account_recipient_key_update current next =
    if same_key_state current next
    then true
    else if terminal_account_recipient_key_state current
        || terminal_account_recipient_key_state next
    then false
    else same_key_state current KeyState.pending_verification && same_key_state next KeyState.active

abbrev pub label_or : Option String → String → String
label_or none label = label
label_or (some label) _ = label

abbrev pub state_or : Option KeyState → KeyState → KeyState
state_or none s = s
state_or (some s) _ = s

abbrev pub recipient_update_allowed : Option KeyState → KeyState → Bool
recipient_update_allowed none current = true
recipient_update_allowed (some next) current = allowed_account_recipient_key_update current next

abbrev pub updated_recipient_row :
    ℕ
    → UpdateAccountRecipientKeyParams
    → AccountRecipientKey
    → AccountRecipientKey
    → AccountRecipientKey
updated_recipient_row now p current r = record r {
  display_label = label_or p.display_label current.display_label;
  key_state = state_or p.key_state current.key_state;
  updated_at = now;
}

-- The statements of an update, with no other call in between: the row that is read is there to write.
unfoldable pub update_account_recipient_key :
    ℕ → UpdateAccountRecipientKeyParams → Tx AccountRecipientKey
unfolding get_account_recipient_key
update_account_recipient_key now p = do
  current ← get_account_recipient_key p.owner_account_id p.recipient_key_id
  fail_if (not (recipient_update_allowed p.key_state current.key_state)) Error.invalid_state
  writes (λ d. record d {
    account_recipient_keys =
        update_where (owned_recipient_key p.owner_account_id p.recipient_key_id)
          (updated_recipient_row now p current) d.account_recipient_keys;
  })
  get_account_recipient_key p.owner_account_id p.recipient_key_id

abbrev pub ended_recipient_row : ℕ → KeyEnd → AccountRecipientKey → AccountRecipientKey
ended_recipient_row now KeyEnd.revoked r = record r {
  key_state = KeyState.revoked;
  updated_at = now;
  revoked_at = some now;
  lost_at = none;
}
ended_recipient_row now KeyEnd.lost r = record r {
  key_state = KeyState.lost;
  updated_at = now;
  revoked_at = none;
  lost_at = some now;
}

unfoldable pub end_recipient_key : ℕ → KeyEnd → String → String → Tx AccountRecipientKey
unfolding get_account_recipient_key
end_recipient_key now end_as owner id = do
  writes (λ d. record d {
    account_recipient_keys =
        update_where (owned_recipient_key owner id) (ended_recipient_row now end_as)
          d.account_recipient_keys;
  })
  get_account_recipient_key owner id

-- The statements of an end, with no other call in between: the row that is read is there to write.
unfoldable pub set_account_recipient_key_terminal_state :
    ℕ → KeyEnd → String → String → Tx AccountRecipientKey
unfolding get_account_recipient_key end_recipient_key
set_account_recipient_key_terminal_state now end_as owner id = do
  current ← get_account_recipient_key owner id
  let same = same_key_state current.key_state (end_state end_as)
  fail_if (terminal_account_recipient_key_state current.key_state && not same) Error.invalid_state
  let ended = end_recipient_key now end_as owner id
  if same then pure current else ended

unfoldable pub revoke_account_recipient_key : ℕ → String → String → Tx AccountRecipientKey
unfolding set_account_recipient_key_terminal_state
revoke_account_recipient_key now owner id =
    set_account_recipient_key_terminal_state now KeyEnd.revoked owner id

unfoldable pub mark_account_recipient_key_lost : ℕ → String → String → Tx AccountRecipientKey
unfolding set_account_recipient_key_terminal_state
mark_account_recipient_key_lost now owner id =
    set_account_recipient_key_terminal_state now KeyEnd.lost owner id

abbrev pub replaced_recipient_row : ℕ → String → AccountRecipientKey → AccountRecipientKey
replaced_recipient_row now replacement r = record r {
  key_state = KeyState.replaced;
  updated_at = now;
  replaced_at = some now;
  replaced_by_recipient_key_id = replacement;
}

abbrev pub next_key_version : String → String → Db → ℕ
next_key_version owner recipient d =
    max_of (λ (r : AccountRecipientKey). r.version)
      (select (of_recipient owner recipient) d.account_recipient_keys)
    + 1

abbrev pub replacement_params :
    ReplaceAccountRecipientKeyParams → AccountRecipientKey → CreateAccountRecipientKeyParams
replacement_params p current = record {
  owner_account_id = p.owner_account_id;
  recipient_id = current.recipient_id;
  recipient_type = current.recipient_type;
  key_id = p.key_id;
  display_label = p.display_label;
  scheme = p.scheme;
  suite_id = p.suite_id;
  public_key = p.public_key;
  public_key_fingerprint = p.public_key_fingerprint;
  key_state = p.key_state;
}

-- `now` is the instant of the successor, `replaced_at` that of the old row.
unfoldable pub replace_account_recipient_key :
    ℕ → ℕ → String → ReplaceAccountRecipientKeyParams → Tx AccountRecipientKey
unfolding get_account_recipient_key insert_recipient_key
replace_account_recipient_key now replaced_at id p = do
  current ← get_account_recipient_key p.owner_account_id p.recipient_key_id
  fail_if (terminal_account_recipient_key_state current.key_state) Error.invalid_state
  version ← reads (next_key_version p.owner_account_id current.recipient_id)
  let key = new_recipient_key now id (replacement_params p current) current.recipient_id version
  insert_recipient_key key
  writes (λ d. record d {
    account_recipient_keys =
        update_where (owned_recipient_key p.owner_account_id p.recipient_key_id)
          (replaced_recipient_row replaced_at id) d.account_recipient_keys;
  })
  pure key
