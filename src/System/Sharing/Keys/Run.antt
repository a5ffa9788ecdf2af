-- ===== src/System/Sharing/Keys/Run.antt =====
-- Every call of the system is a step on the table of contact keys.
use safety_recorder.Repository.Sharing.Frame.{
  create_grant-SameButGrants, revoke_grant-SameButGrants, create_wrapped-SameButWrapped,
  revoke_wrapped-SameButWrapped, invite-SameButContacts, answer-SameButContacts,
  revoke_relationship-SameButContacts, replace_relationship-SameButContacts,
  create_recipient_key-SameButContacts, update_recipient_key-SameButContacts,
  end_recipient-SameButContacts, replace_recipient_key-SameButContacts,
}
use safety_recorder.System.Sharing.Keys.Changes.{update_key-KeysStep, end_key-KeysStep}
use safety_recorder.System.Sharing.Frame.{
  create_incident-SameSharing, close-SameSharing, create_stream-SameSharing,
  complete_stream-SameSharing, fail_stream-SameSharing, add_chunk-SameSharing,
  add_checkin-SameSharing, create_token-SameSharing, revoke_token-SameSharing,
  reserve_upload-SameSharing, complete_upload-SameSharing, request_deletion-SameSharing,
  claim_deletion-SameSharing, item_deleted-SameSharing, item_failed-SameSharing,
  fail_deletion-SameSharing, complete_deletion-frame,
}
use safety_recorder.System.Sharing.Keys.Steps.{KeyStep}
use safety_recorder.System.Sharing.Keys.Calls.{KeysStep, create_key-KeysStep, replace_key-KeysStep}
use safety_recorder.Repository.Sharing.Calls.{share, SharingCall}
use safety_recorder.System.{exec, Command}
use safety_recorder.Base.{String, ◌≡◌, subst, sym, inl, inr}
use safety_recorder.Model.{Db}

-- A call that leaves the table of keys alone.
same_keys : (d e : Db) → e.contact_public_keys ≡ d.contact_public_keys → KeysStep d e
same_keys d e s = subst (KeyStep d.contact_public_keys) (sym s) KeyStep.same

share-KeysStep : (c : SharingCall) (d : Db) → KeysStep d (share c d)
unfolding share
share-KeysStep (SharingCall.create_key now contact id audit p) d =
    create_key-KeysStep now contact id audit p d
share-KeysStep (SharingCall.update_key now p) d = update_key-KeysStep now p d
share-KeysStep (SharingCall.replace_key now at id audit p) d =
    replace_key-KeysStep now at id audit p d
share-KeysStep (SharingCall.end_key now audit e owner id) d =
    end_key-KeysStep now audit e owner id d
share-KeysStep (SharingCall.create_grant now id audit p) d =
    same_keys d (share (SharingCall.create_grant now id audit p) d)
      (create_grant-SameButGrants d now id audit p).contact_public_keys
share-KeysStep (SharingCall.revoke_grant now audit owner id by) d =
    same_keys d (share (SharingCall.revoke_grant now audit owner id by) d)
      (revoke_grant-SameButGrants d now audit owner id by).contact_public_keys
share-KeysStep (SharingCall.create_wrapped checked now id audit p) d =
    same_keys d (share (SharingCall.create_wrapped checked now id audit p) d)
      (create_wrapped-SameButWrapped d checked now id audit p).contact_public_keys
share-KeysStep (SharingCall.revoke_wrapped now audit owner id by) d =
    same_keys d (share (SharingCall.revoke_wrapped now audit owner id by) d)
      (revoke_wrapped-SameButWrapped d now audit owner id by).contact_public_keys
share-KeysStep (SharingCall.invite now id p) d =
    same_keys d (share (SharingCall.invite now id p) d)
      (invite-SameButContacts d now id p).contact_public_keys
share-KeysStep (SharingCall.answer now a recipient id) d =
    same_keys d (share (SharingCall.answer now a recipient id) d)
      (answer-SameButContacts d now a recipient id).contact_public_keys
share-KeysStep (SharingCall.revoke_relationship now owner id by) d =
    same_keys d (share (SharingCall.revoke_relationship now owner id by) d)
      (revoke_relationship-SameButContacts d now owner id by).contact_public_keys
share-KeysStep (SharingCall.replace_relationship now at id p) d =
    same_keys d (share (SharingCall.replace_relationship now at id p) d)
      (replace_relationship-SameButContacts d now at id p).contact_public_keys
share-KeysStep (SharingCall.create_recipient_key now recipient id p) d =
    same_keys d (share (SharingCall.create_recipient_key now recipient id p) d)
      (create_recipient_key-SameButContacts d now recipient id p).contact_public_keys
share-KeysStep (SharingCall.update_recipient_key now p) d =
    same_keys d (share (SharingCall.update_recipient_key now p) d)
      (update_recipient_key-SameButContacts d now p).contact_public_keys
share-KeysStep (SharingCall.end_recipient now e owner id) d =
    same_keys d (share (SharingCall.end_recipient now e owner id) d)
      (end_recipient-SameButContacts d now e owner id).contact_public_keys
share-KeysStep (SharingCall.replace_recipient_key now at id p) d =
    same_keys d (share (SharingCall.replace_recipient_key now at id p) d)
      (replace_recipient_key-SameButContacts d now at id p).contact_public_keys

module _ (hash : String → String) where
  pub exec-KeysStep : (c : Command) (d : Db) → KeysStep d (exec hash c d)
  unfolding exec
  exec-KeysStep (Command.create_incident now id account p) d =
      same_keys d (exec hash (Command.create_incident now id account p) d)
        (create_incident-SameSharing hash d now id account p).contact_public_keys
  exec-KeysStep (Command.close now id) d =
      same_keys d (exec hash (Command.close now id) d)
        (close-SameSharing hash d now id).contact_public_keys
  exec-KeysStep (Command.create_stream now id i m label) d =
      same_keys d (exec hash (Command.create_stream now id i m label) d)
        (create_stream-SameSharing hash d now id i m label).contact_public_keys
  exec-KeysStep (Command.complete_stream now i k n) d =
      same_keys d (exec hash (Command.complete_stream now i k n) d)
        (complete_stream-SameSharing hash d now i k n).contact_public_keys
  exec-KeysStep (Command.fail_stream now i k reason) d =
      same_keys d (exec hash (Command.fail_stream now i k reason) d)
        (fail_stream-SameSharing hash d now i k reason).contact_public_keys
  exec-KeysStep (Command.add_chunk now id p) d =
      same_keys d (exec hash (Command.add_chunk now id p) d)
        (add_chunk-SameSharing hash d now id p).contact_public_keys
  exec-KeysStep (Command.add_checkin now id i p) d =
      same_keys d (exec hash (Command.add_checkin now id i p) d)
        (add_checkin-SameSharing hash d now id i p).contact_public_keys
  exec-KeysStep (Command.create_token now id raw i label expires) d =
      same_keys d (exec hash (Command.create_token now id raw i label expires) d)
        (create_token-SameSharing hash d now id raw i label expires).contact_public_keys
  exec-KeysStep (Command.revoke_token now id) d =
      same_keys d (exec hash (Command.revoke_token now id) d)
        (revoke_token-SameSharing hash d now id).contact_public_keys
  exec-KeysStep (Command.reserve_upload now id p) d =
      same_keys d (exec hash (Command.reserve_upload now id p) d)
        (reserve_upload-SameSharing hash d now id p).contact_public_keys
  exec-KeysStep (Command.complete_upload now p c) d =
      same_keys d (exec hash (Command.complete_upload now p c) d)
        (complete_upload-SameSharing hash d now p c).contact_public_keys
  exec-KeysStep (Command.request_deletion now id ids p) d =
      same_keys d (exec hash (Command.request_deletion now id ids p) d)
        (request_deletion-SameSharing hash d now id ids p).contact_public_keys
  exec-KeysStep (Command.claim_deletion now id stale) d =
      same_keys d (exec hash (Command.claim_deletion now id stale) d)
        (claim_deletion-SameSharing hash d now id stale).contact_public_keys
  exec-KeysStep (Command.item_deleted now id) d =
      same_keys d (exec hash (Command.item_deleted now id) d)
        (item_deleted-SameSharing hash d now id).contact_public_keys
  exec-KeysStep (Command.item_failed now id code) d =
      same_keys d (exec hash (Command.item_failed now id code) d)
        (item_failed-SameSharing hash d now id code).contact_public_keys
  exec-KeysStep (Command.fail_deletion now id code) d =
      same_keys d (exec hash (Command.fail_deletion now id code) d)
        (fail_deletion-SameSharing hash d now id code).contact_public_keys
  exec-KeysStep (Command.complete_deletion now audit id) d =
      let e = exec hash (Command.complete_deletion now audit id) d in
      elim (complete_deletion-frame d now audit id) [
        | inl s ↦ same_keys d e s.contact_public_keys
        | inr (i, s) ↦ same_keys d e s.contact_public_keys
      ]
  exec-KeysStep (Command.sharing c) d = share-KeysStep c d
