-- ===== src/Tests/Sharing.antt =====
-- Contact keys, grants, wrapped keys and relationships on concrete data.
use safety_recorder.Repository.Sharing.Race.{relabel, stale_update_reopens_key, stored_update}
use safety_recorder.DbTime.{db_time_le}
use safety_recorder.Repository.Sharing.WrappedKeys.{create_wrapped_key_record, wrapped_key_row_ok}
use safety_recorder.Repository.Sharing.Grants.{
  create_sharing_grant, grant_row_ok, revoke_sharing_grant,
}
use safety_recorder.Repository.Sharing.KeyStates.{
  write_key_update, KeyEnd, set_contact_key_terminal_state, read_key_update,
  update_contact_public_key,
}
use safety_recorder.Repository.Sharing.ContactKeys.{
  is_open_key, new_contact_key, create_contact_public_key, create_key_version, create_first_key,
  create_next_key, contact_key_row_ok,
}
use safety_recorder.System.Sharing.Keys.OneOpen.{one_open_key}
use safety_recorder.System.Sharing.Keys.Refines.{keys_refine_register}
use safety_recorder.Repository.Sharing.Delivery.{
  is_deliverable_to, is_deliverable, get_trusted_contact_wrapped_key_record, get_wrapped_key_record,
}
use safety_recorder.System.Sharing.Keys.Ended.{ended}
use safety_recorder.System.{Command, run, empty_db, exec}
use safety_recorder.System.Sharing.Keys.Defs.{open_of}
use safety_recorder.System.Sharing.Keys.Register.{Reachable, register, RegisterStep}
use safety_recorder.System.Sharing.Uses.{Uses, ended_key_is_unused}
use safety_recorder.System.Sharing.Grants.{IsInactiveGrant}
use safety_recorder.System.Sharing.Delivered.{UsesGrant, revoked_grant_is_unused}
use safety_recorder.Repository.Sharing.Calls.{SharingCall, share}
use safety_recorder.Base.{
  String, [], ◌∷◌, List, none, some, ◌≡◌, ◌≤◌, refl, true, any_row, count_where, find_row, ◌==◌,
  select, update_where, order_by, insert_row, max_of, text_le, Bool, false,
}
use safety_recorder.Repository.Sharing.Relationships.{
  Answer, create_trusted_contact_relationship, relationship_row_ok,
  set_recipient_relationship_state,
}
use safety_recorder.Model.{
  ContactPublicKey, Db, ok, err, KeyState, DataClass, CreateContactPublicKeyParams,
  CreateSharingGrantParams, CreateTrustedContactRelationshipParams, CreateWrappedKeyRecordParams,
  UpdateContactPublicKeyParams, Result, WrappedKeyRecord,
}
use safety_recorder.Tests.Fixtures.{open_db, account, flat_hash, incident_params}

abbrev key_params : String → KeyState → CreateContactPublicKeyParams
key_params contact state = record {
  owner_account_id = "acc";
  contact_id = contact;
  recipient_account_id = "con";
  display_label = "friend";
  wrapping_algorithm = "x25519";
  public_key = "pk";
  public_key_fingerprint = "fp";
  key_state = state;
}

abbrev verify_params : String → UpdateContactPublicKeyParams
verify_params id = record {
  owner_account_id = "acc";
  public_key_id = id;
  display_label = none;
  key_state = some KeyState.active;
}

abbrev grant_params : CreateSharingGrantParams
grant_params = record {
  owner_account_id = "acc";
  incident_id = "inc";
  stream_id = "";
  recipient_type = "trusted_contact";
  contact_id = "ctc";
  contact_public_key_id = "";
  data_class = DataClass.ciphertext;
  expires_at = none;
}

abbrev wrapped_params : CreateWrappedKeyRecordParams
wrapped_params = record {
  owner_account_id = "acc";
  incident_id = "inc";
  stream_id = "";
  grant_id = "gr1";
  media_key_id = "mk";
  wrapping_algorithm = "x25519";
  wrapping_algorithm_version = "1";
  wrapped_key_ciphertext = "ct";
  public_wrapping_metadata = "{}";
}

abbrev invite_params : CreateTrustedContactRelationshipParams
invite_params = record {
  owner_account_id = "acc";
  recipient_account_id = "con";
  relationship_role = "";
  display_label = "";
}

-- A key is registered, verified and shared with.
abbrev sharing_calls : List SharingCall
sharing_calls =
    SharingCall.create_key 20 "ctc" "cpk1" "a1" (key_params "" KeyState.pending_verification)
    ∷ SharingCall.update_key 21 (verify_params "cpk1")
    ∷ SharingCall.create_grant 22 "gr1" "a2" grant_params
    ∷ SharingCall.create_wrapped 23 23 "wk1" "a3" wrapped_params
    ∷ SharingCall.invite 24 "tcr1" invite_params
    ∷ SharingCall.answer 25 Answer.accept "con" "tcr1"
    ∷ []

abbrev shares : List SharingCall → Db → Db
shares [] d = d
shares (c ∷ cs) d = shares cs (share c d)

abbrev shared : Db
shared = shares sharing_calls open_db

abbrev wrapped_id : Result (WrappedKeyRecord × Db) → String
wrapped_id (ok r) = r.0.id
wrapped_id (err e) = ""

-- The contact and the owner read the wrapped key.
contact_reads_key :
    wrapped_id (get_trusted_contact_wrapped_key_record 30 "con" "wk1" shared) ≡ "wk1"
unfolding get_trusted_contact_wrapped_key_record get_wrapped_key_record find_row any_row select
    update_where order_by insert_row max_of ◌==◌ text_le share create_contact_public_key
    create_key_version create_first_key create_next_key contact_key_row_ok update_contact_public_key
    create_sharing_grant grant_row_ok create_wrapped_key_record wrapped_key_row_ok
    create_trusted_contact_relationship relationship_row_ok set_recipient_relationship_state
    revoke_sharing_grant db_time_le is_deliverable is_deliverable_to
contact_reads_key = refl

owner_reads_key : wrapped_id (get_wrapped_key_record 30 "acc" "wk1" shared) ≡ "wk1"
unfolding get_trusted_contact_wrapped_key_record get_wrapped_key_record find_row any_row select
    update_where order_by insert_row max_of ◌==◌ text_le share create_contact_public_key
    create_key_version create_first_key create_next_key contact_key_row_ok update_contact_public_key
    create_sharing_grant grant_row_ok create_wrapped_key_record wrapped_key_row_ok
    create_trusted_contact_relationship relationship_row_ok set_recipient_relationship_state
    revoke_sharing_grant db_time_le is_deliverable is_deliverable_to
owner_reads_key = refl

-- A further key of the contact replaces the first.
abbrev rotated : Db
rotated = share (SharingCall.create_key 31 "" "cpk2" "a4" (key_params "ctc" KeyState.active)) shared

first_key_is_replaced : ended "cpk1" rotated.contact_public_keys ≡ true
unfolding get_trusted_contact_wrapped_key_record get_wrapped_key_record find_row any_row select
    update_where order_by insert_row max_of ◌==◌ text_le share create_contact_public_key
    create_key_version create_first_key create_next_key contact_key_row_ok update_contact_public_key
    create_sharing_grant grant_row_ok create_wrapped_key_record wrapped_key_row_ok
    create_trusted_contact_relationship relationship_row_ok set_recipient_relationship_state
    revoke_sharing_grant db_time_le is_deliverable is_deliverable_to
first_key_is_replaced = refl

old_key_is_not_read : wrapped_id (get_wrapped_key_record 32 "acc" "wk1" rotated) ≡ ""
unfolding get_trusted_contact_wrapped_key_record get_wrapped_key_record find_row any_row select
    update_where order_by insert_row max_of ◌==◌ text_le share create_contact_public_key
    create_key_version create_first_key create_next_key contact_key_row_ok update_contact_public_key
    create_sharing_grant grant_row_ok create_wrapped_key_record wrapped_key_row_ok
    create_trusted_contact_relationship relationship_row_ok set_recipient_relationship_state
    revoke_sharing_grant db_time_le is_deliverable is_deliverable_to
old_key_is_not_read = refl

abbrev commands : List SharingCall → List Command
commands [] = []
commands (c ∷ cs) = Command.sharing c ∷ commands cs

one_open_key_example :
    count_where
      (open_of "acc" "ctc")
      (run flat_hash
        (Command.create_incident 5 "inc" "acc" incident_params ∷ commands sharing_calls)
        (empty_db (account "acc" ∷ account "con" ∷ []))).contact_public_keys
    ≤ 1
one_open_key_example =
    one_open_key flat_hash (account "acc" ∷ account "con" ∷ [])
      (Command.create_incident 5 "inc" "acc" incident_params ∷ commands sharing_calls) "acc" "ctc"

abbrev sharing_run : Db
sharing_run =
    run flat_hash (Command.create_incident 5 "inc" "acc" incident_params ∷ commands sharing_calls)
      (empty_db (account "acc" ∷ account "con" ∷ []))

keys_refine_register_example :
    Reachable (register "acc" "ctc" sharing_run.contact_public_keys)
    × RegisterStep (register "acc" "ctc" sharing_run.contact_public_keys) (
        register "acc" "ctc"
          (exec flat_hash
            (Command.sharing (SharingCall.update_key 40 (verify_params "cpk1")))
            sharing_run).contact_public_keys)
keys_refine_register_example =
    keys_refine_register flat_hash (account "acc" ∷ account "con" ∷ [])
      (Command.create_incident 5 "inc" "acc" incident_params ∷ commands sharing_calls)
      (Command.sharing (SharingCall.update_key 40 (verify_params "cpk1"))) "acc" "ctc"

ended_key_is_unused_example :
    ¬ Uses
      (run flat_hash
        (Command.sharing (SharingCall.update_key 40 (verify_params "cpk1")) ∷ [])
        rotated)
      "cpk1"
ended_key_is_unused_example =
    ended_key_is_unused flat_hash "cpk1"
      (Command.sharing (SharingCall.update_key 40 (verify_params "cpk1")) ∷ []) rotated
      first_key_is_replaced

abbrev revoked : Db
revoked = share (SharingCall.revoke_grant 33 "a5" "acc" "gr1" "acc") shared

grant_is_revoked : IsInactiveGrant "gr1" revoked
unfolding get_trusted_contact_wrapped_key_record get_wrapped_key_record find_row any_row select
    update_where order_by insert_row max_of ◌==◌ text_le share create_contact_public_key
    create_key_version create_first_key create_next_key contact_key_row_ok update_contact_public_key
    create_sharing_grant grant_row_ok create_wrapped_key_record wrapped_key_row_ok
    create_trusted_contact_relationship relationship_row_ok set_recipient_relationship_state
    revoke_sharing_grant db_time_le is_deliverable is_deliverable_to
grant_is_revoked = refl

revoked_grant_is_unused_example :
    ¬ UsesGrant
      (run flat_hash
        (Command.sharing (SharingCall.create_grant 41 "gr2" "a6" grant_params) ∷ [])
        revoked)
      "gr1"
unfolding ◌==◌
revoked_grant_is_unused_example =
    revoked_grant_is_unused flat_hash "gr1"
      (Command.sharing (SharingCall.create_grant 41 "gr2" "a6" grant_params) ∷ []) revoked
      grant_is_revoked (refl, tt)

-- What a call returns, or a filler.
abbrev returned : Result (ContactPublicKey × Db) → ContactPublicKey × Db
returned (ok r) = r
returned (err e) = (new_contact_key 0 "" (key_params "" KeyState.active) "" 0, open_db)

abbrev succeeded : Result (ContactPublicKey × Db) → Bool
succeeded (ok r) = true
succeeded (err e) = false

returned_lem :
    (r : Result (ContactPublicKey × Db))
    → succeeded r ≡ true
    → r ≡ ok ((returned r).0, (returned r).1)
returned_lem (ok r) h = refl
returned_lem (err e) h = cc

-- The one key is active.
abbrev keyed : Db
keyed = share (SharingCall.create_key 20 "ctc" "cpk1" "a1" (key_params "" KeyState.active)) open_db

abbrev read : ContactPublicKey × Db
read = returned (read_key_update (relabel "acc" "cpk1" "pal") keyed)

abbrev ended_row : ContactPublicKey × Db
ended_row = returned (set_contact_key_terminal_state 35 "a7" KeyEnd.revoked "acc" "cpk1" keyed)

read_succeeds : succeeded (read_key_update (relabel "acc" "cpk1" "pal") keyed) ≡ true
unfolding get_trusted_contact_wrapped_key_record get_wrapped_key_record find_row any_row select
    update_where order_by insert_row max_of ◌==◌ text_le share create_contact_public_key
    create_key_version create_first_key create_next_key contact_key_row_ok update_contact_public_key
    create_sharing_grant grant_row_ok create_wrapped_key_record wrapped_key_row_ok
    create_trusted_contact_relationship relationship_row_ok set_recipient_relationship_state
    revoke_sharing_grant db_time_le is_deliverable is_deliverable_to read_key_update
    set_contact_key_terminal_state
read_succeeds = refl

read_is_open : is_open_key read.0.key_state ≡ true
unfolding get_trusted_contact_wrapped_key_record get_wrapped_key_record find_row any_row select
    update_where order_by insert_row max_of ◌==◌ text_le share create_contact_public_key
    create_key_version create_first_key create_next_key contact_key_row_ok update_contact_public_key
    create_sharing_grant grant_row_ok create_wrapped_key_record wrapped_key_row_ok
    create_trusted_contact_relationship relationship_row_ok set_recipient_relationship_state
    revoke_sharing_grant db_time_le is_deliverable is_deliverable_to read_key_update
    set_contact_key_terminal_state
read_is_open = refl

end_succeeds :
    succeeded (set_contact_key_terminal_state 35 "a7" KeyEnd.revoked "acc" "cpk1" keyed) ≡ true
unfolding get_trusted_contact_wrapped_key_record get_wrapped_key_record find_row any_row select
    update_where order_by insert_row max_of ◌==◌ text_le share create_contact_public_key
    create_key_version create_first_key create_next_key contact_key_row_ok update_contact_public_key
    create_sharing_grant grant_row_ok create_wrapped_key_record wrapped_key_row_ok
    create_trusted_contact_relationship relationship_row_ok set_recipient_relationship_state
    revoke_sharing_grant db_time_le is_deliverable is_deliverable_to read_key_update
    set_contact_key_terminal_state
end_succeeds = refl

stale_update_reopens_key_example :
    (r : ContactPublicKey) × (write_key_update 36 (relabel "acc" "cpk1" "pal") read.0 ended_row.1
      ≡ ok (r, stored_update 36 (relabel "acc" "cpk1" "pal") read.0 ended_row.1))
    × (is_open_key r.key_state ≡ true)
stale_update_reopens_key_example =
    stale_update_reopens_key keyed ended_row.1 read.1 35 36 "a7" "pal" KeyEnd.revoked "acc" "cpk1"
      read.0 ended_row.0
      (returned_lem (read_key_update (relabel "acc" "cpk1" "pal") keyed) read_succeeds) read_is_open
      (returned_lem (set_contact_key_terminal_state 35 "a7" KeyEnd.revoked "acc" "cpk1" keyed)
        end_succeeds)
