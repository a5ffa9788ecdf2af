-- ===== src/Repository/Sharing/Relationships.antt =====
-- internal/incidents/trusted_contact_relationships.go: relationships between accounts.
use safety_recorder.Base.{
  ℕ, String, Bool, not, ◌&&◌, ◌||◌, Option, none, some, List, [], ◌∷◌, ◌++◌, ◌==◌, if◌then◌else◌,
  find_row, any_row, select, update_where, order_by, eqb, text_le,
}
use safety_recorder.DbTime.{db_time_le}
use safety_recorder.Model.{
  TrustedContactRelationship, RelationshipState, is_pending_invite, is_relationship_revoked,
  terminal_trusted_contact_relationship_state, role_trusted_contact,
  valid_trusted_contact_relationship_role, CreateTrustedContactRelationshipParams,
  ReplaceTrustedContactRelationshipParams, Db, Error, Tx, pure, reads, or_fail, fail_if, writes,
  ◌>>=◌, ◌>>◌,
}
use safety_recorder.Repository.Constraints.{has_account}
use safety_recorder.Repository.Sharing.Accounts.{require_active_account}

-- `relationship_state IN ('pending_invite', 'active')`, for the pair and the role.
abbrev pub open_pair : String → String → String → TrustedContactRelationship → Bool
open_pair owner recipient role r =
    r.owner_account_id == owner
    && (r.recipient_account_id == recipient
        && (r.relationship_role == role
            && not (terminal_trusted_contact_relationship_state r.relationship_state)))

abbrev pub other_open_pair : String → String → String → String → TrustedContactRelationship → Bool
other_open_pair owner recipient role exclude r =
    open_pair owner recipient role r && (exclude == "" || not (r.id == exclude))

unfoldable pub require_no_open_relationship : String → String → String → String → Tx (Unit {0})
require_no_open_relationship owner recipient role exclude = do
  found ←
      reads (λ d.
        any_row (other_open_pair owner recipient role exclude) d.trusted_contact_relationships)
  fail_if found Error.duplicate

abbrev pub new_relationship :
    ℕ → String → CreateTrustedContactRelationshipParams → TrustedContactRelationship
new_relationship now id p = record {
  id = id;
  owner_account_id = p.owner_account_id;
  recipient_account_id = p.recipient_account_id;
  relationship_role = p.relationship_role;
  relationship_state = RelationshipState.pending_invite;
  display_label = p.display_label;
  created_at = now;
  updated_at = now;
  invited_at = now;
  accepted_at = none;
  declined_at = none;
  revoked_at = none;
  revoked_by_account_id = "";
  replaced_at = none;
  replaced_by_relationship_id = "";
}

-- The constraints of migrations/014_trusted_contact_relationships.sql, the unique index of the open
-- pairs among them.
unfoldable pub relationship_row_ok : TrustedContactRelationship → Db → Bool
relationship_row_ok r d =
    not (any_row (λ (x : TrustedContactRelationship). x.id == r.id) d.trusted_contact_relationships)
    && not (
        any_row (open_pair r.owner_account_id r.recipient_account_id r.relationship_role)
          d.trusted_contact_relationships)
    && has_account r.owner_account_id d
    && has_account r.recipient_account_id d
    && valid_trusted_contact_relationship_role r.relationship_role
    && not (r.owner_account_id == r.recipient_account_id)

unfoldable pub insert_relationship : TrustedContactRelationship → Tx (Unit {0})
insert_relationship r = do
  row_ok ← reads (relationship_row_ok r)
  fail_if (not row_ok) Error.duplicate
  writes
      (λ d. record d { trusted_contact_relationships = d.trusted_contact_relationships ++ r ∷ [] })

abbrev pub role_or : String → String → String
role_or role fallback = if role == "" then fallback else role

unfoldable pub create_trusted_contact_relationship :
    ℕ → String → CreateTrustedContactRelationshipParams → Tx TrustedContactRelationship
unfolding require_active_account require_no_open_relationship insert_relationship
create_trusted_contact_relationship now id p = do
  let q = record p { relationship_role = role_or p.relationship_role role_trusted_contact }
  fail_if (not (valid_trusted_contact_relationship_role q.relationship_role)) Error.invalid_state
  fail_if (q.owner_account_id == q.recipient_account_id) Error.invalid_state
  require_active_account q.recipient_account_id
  require_no_open_relationship q.owner_account_id q.recipient_account_id q.relationship_role ""
  insert_relationship (new_relationship now id q)
  pure (new_relationship now id q)

abbrev pub latest_relationship_first :
    TrustedContactRelationship → TrustedContactRelationship → Bool
latest_relationship_first a b =
    if not (eqb a.updated_at b.updated_at)
    then db_time_le b.updated_at a.updated_at
    else if not (eqb a.created_at b.created_at)
    then db_time_le b.created_at a.created_at
    else text_le a.id b.id

abbrev pub party : String → TrustedContactRelationship → Bool
party account r = r.owner_account_id == account || r.recipient_account_id == account

unfoldable pub list_trusted_contact_relationships : String → Tx (List TrustedContactRelationship)
list_trusted_contact_relationships account = reads (λ d.
    order_by latest_relationship_first (select (party account) d.trusted_contact_relationships))

abbrev pub visible_to : String → String → TrustedContactRelationship → Bool
visible_to account id r = r.id == id && party account r

unfoldable pub get_relationship_for_account : String → String → Tx TrustedContactRelationship
get_relationship_for_account account id = do
  or_fail (← reads (λ d. find_row (visible_to account id) d.trusted_contact_relationships))
      Error.not_found

-- The answers of a recipient to an invite.
pub data Answer : Type 0 where
  accept decline : Answer

abbrev pub invited : String → String → TrustedContactRelationship → Bool
invited recipient id r =
    r.recipient_account_id == recipient && (r.id == id && is_pending_invite r.relationship_state)

abbrev pub answered_row : ℕ → Answer → TrustedContactRelationship → TrustedContactRelationship
answered_row now Answer.accept r = record r {
  relationship_state = RelationshipState.active;
  updated_at = now;
  accepted_at = some now;
  declined_at = none;
}
answered_row now Answer.decline r = record r {
  relationship_state = RelationshipState.declined;
  updated_at = now;
  accepted_at = none;
  declined_at = some now;
}

-- Why no row was affected: the recipient's relationship is no invite, or is not there.
abbrev pub unanswered : String → Option TrustedContactRelationship → Error
unanswered recipient none = Error.not_found
unanswered recipient (some r) =
    if r.recipient_account_id == recipient then Error.invalid_state else Error.not_found

unfoldable pub set_recipient_relationship_state :
    ℕ → Answer → String → String → Tx TrustedContactRelationship
unfolding get_relationship_for_account
set_recipient_relationship_state now answer recipient id = do
  affected ← reads (λ d. any_row (invited recipient id) d.trusted_contact_relationships)
  known ← reads (λ d. find_row (visible_to recipient id) d.trusted_contact_relationships)
  fail_if (not affected) (unanswered recipient known)
  writes (λ d. record d {
    trusted_contact_relationships =
        update_where (invited recipient id) (answered_row now answer)
          d.trusted_contact_relationships;
  })
  get_relationship_for_account recipient id

unfoldable pub accept_trusted_contact_relationship :
    ℕ → String → String → Tx TrustedContactRelationship
unfolding set_recipient_relationship_state
accept_trusted_contact_relationship now recipient id =
    set_recipient_relationship_state now Answer.accept recipient id

unfoldable pub decline_trusted_contact_relationship :
    ℕ → String → String → Tx TrustedContactRelationship
unfolding set_recipient_relationship_state
decline_trusted_contact_relationship now recipient id =
    set_recipient_relationship_state now Answer.decline recipient id

abbrev pub owned_relationship : String → String → TrustedContactRelationship → Bool
owned_relationship owner id r = r.owner_account_id == owner && r.id == id

abbrev pub revoked_relationship_row :
    ℕ → String → TrustedContactRelationship → TrustedContactRelationship
revoked_relationship_row now by r = record r {
  relationship_state = RelationshipState.revoked;
  updated_at = now;
  revoked_at = some now;
  revoked_by_account_id = by;
}

unfoldable pub write_revocation : ℕ → String → String → String → Tx TrustedContactRelationship
unfolding get_relationship_for_account
write_revocation now owner id by = do
  affected ← reads (λ d. any_row (owned_relationship owner id) d.trusted_contact_relationships)
  fail_if (not affected) Error.not_found
  by_ok ← reads (λ d. by == "" || has_account by d)
  fail_if (not by_ok) Error.database
  writes (λ d. record d {
    trusted_contact_relationships =
        update_where (owned_relationship owner id) (revoked_relationship_row now by)
          d.trusted_contact_relationships;
  })
  get_relationship_for_account owner id

-- The statements of a revocation, with no other call in between.
unfoldable pub revoke_trusted_contact_relationship :
    ℕ → String → String → String → Tx TrustedContactRelationship
unfolding get_relationship_for_account write_revocation
revoke_trusted_contact_relationship now owner id by = do
  current ← get_relationship_for_account owner id
  fail_if (not (current.owner_account_id == owner)) Error.not_found
  let done = is_relationship_revoked current.relationship_state
  fail_if (terminal_trusted_contact_relationship_state current.relationship_state && not done)
      Error.invalid_state
  let write = write_revocation now owner id by
  if done then pure current else write

abbrev pub replaced_relationship_row : ℕ → TrustedContactRelationship → TrustedContactRelationship
replaced_relationship_row now r = record r {
  relationship_state = RelationshipState.replaced;
  updated_at = now;
  replaced_at = some now;
}

abbrev pub linked_row : String → TrustedContactRelationship → TrustedContactRelationship
linked_row replacement r = record r { replaced_by_relationship_id = replacement }

abbrev pub successor_params :
    ReplaceTrustedContactRelationshipParams
    → TrustedContactRelationship
    → CreateTrustedContactRelationshipParams
successor_params p current = record {
  owner_account_id = p.owner_account_id;
  recipient_account_id = role_or p.recipient_account_id current.recipient_account_id;
  relationship_role = role_or p.relationship_role current.relationship_role;
  display_label = p.display_label;
}

-- `now` is the instant of the successor, `replaced_at` that of the old row.
unfoldable pub replace_trusted_contact_relationship :
    ℕ → ℕ → String → ReplaceTrustedContactRelationshipParams → Tx TrustedContactRelationship
unfolding require_active_account require_no_open_relationship insert_relationship
replace_trusted_contact_relationship now replaced_at id p = do
  current ←
      or_fail
        (← reads (λ d. find_row (λ r. r.id == p.relationship_id) d.trusted_contact_relationships))
        Error.not_found
  fail_if (not (current.owner_account_id == p.owner_account_id)) Error.not_found
  fail_if (terminal_trusted_contact_relationship_state current.relationship_state)
      Error.invalid_state
  let q = successor_params p current
  fail_if (not (valid_trusted_contact_relationship_role q.relationship_role)) Error.invalid_state
  fail_if (q.owner_account_id == q.recipient_account_id) Error.invalid_state
  require_active_account q.recipient_account_id
  require_no_open_relationship q.owner_account_id q.recipient_account_id q.relationship_role
      current.id
  affected ← reads (λ d.
      any_row (owned_relationship p.owner_account_id current.id) d.trusted_contact_relationships)
  fail_if (not affected) Error.not_found
  writes (λ d. record d {
    trusted_contact_relationships =
        update_where (owned_relationship p.owner_account_id current.id)
          (replaced_relationship_row replaced_at) d.trusted_contact_relationships;
  })
  insert_relationship (new_relationship now id q)
  writes (λ d. record d {
    trusted_contact_relationships =
        update_where (owned_relationship p.owner_account_id current.id) (linked_row id)
          d.trusted_contact_relationships;
  })
  pure (new_relationship now id q)
