-- ===== src/System/Sharing/Grants.antt =====
-- Grants that are not active: no call makes one active again.
use safety_recorder.Repository.Sharing.ContactKeys.{newest_key}
use safety_recorder.Repository.Sharing.Frame.{
  create_key-SameButKeys, update_key-SameButKeys, replace_key-SameButKeys, end_key-SameButKeys,
  create_wrapped-SameButWrapped, revoke_wrapped-SameButWrapped, invite-SameButContacts,
  answer-SameButContacts, revoke_relationship-SameButContacts, replace_relationship-SameButContacts,
  create_recipient_key-SameButContacts, update_recipient_key-SameButContacts,
  end_recipient-SameButContacts, replace_recipient_key-SameButContacts,
}
use safety_recorder.System.Sharing.Frame.{
  create_incident-SameSharing, close-SameSharing, create_stream-SameSharing,
  complete_stream-SameSharing, fail_stream-SameSharing, add_chunk-SameSharing,
  add_checkin-SameSharing, create_token-SameSharing, revoke_token-SameSharing,
  reserve_upload-SameSharing, complete_upload-SameSharing, request_deletion-SameSharing,
  claim_deletion-SameSharing, item_deleted-SameSharing, item_failed-SameSharing,
  fail_deletion-SameSharing, complete_deletion-frame,
}
use safety_recorder.System.{Command, exec, run}
use safety_recorder.Repository.Sharing.Grants.{
  create_sharing_grant, revoke_sharing_grant, revocable_grant, revoked_grant_row, grantable,
  new_grant,
}
use safety_recorder.Repository.Sharing.Calls.{share, SharingCall}
use safety_recorder.Base.{
  String, Bool, List, [], ◌∷◌, ◌≡◌, false, ◌&&◌, ◌==◌, arith, any_row, sym, subst, inl, inr, All, ℕ,
  any_row-update_where_none, Option-cases, any_row-append, any_row-delete_where,
}
use safety_recorder.Model.{Db, after, SharingGrant, is_grant_active, CreateSharingGrantParams}

abbrev pub active_grant : String → SharingGrant → Bool
active_grant g r = r.id == g && is_grant_active r.grant_state

-- No grant of this identifier is active: it is revoked, or its incident was deleted.
abbrev pub IsInactiveGrant : String → Db → Type 0
IsInactiveGrant g d = any_row (active_grant g) d.sharing_grants ≡ false

-- Does the call draw the identifier for a new grant?
abbrev pub draws_grant : String → Command → Bool
draws_grant g (Command.sharing (SharingCall.create_grant now id audit p)) = id == g
draws_grant g _ = false

same_grants :
    (g : String) (d e : Db)
    → e.sharing_grants ≡ d.sharing_grants
    → IsInactiveGrant g d
    → IsInactiveGrant g e
same_grants g d e s = subst (λ l. any_row (active_grant g) l ≡ false) (sym s)

create_grant-IsInactiveGrant :
    (g : String) (now : ℕ) (id audit : String) (p : CreateSharingGrantParams) (d : Db)
    → (id == g) ≡ false
    → IsInactiveGrant g d
    → IsInactiveGrant g (after d (create_sharing_grant now id audit p d))
unfolding create_sharing_grant
create_grant-IsInactiveGrant g now id audit p d u v =
    elim (Option-cases (newest_key (grantable p) d)) [
      | inl f ↦ ground arith
      | inr (r, f) ↦
          ground (arith, any_row-append (active_grant g) d.sharing_grants (new_grant now id p r))
    ]

revoke_grant-IsInactiveGrant :
    (g : String) (now : ℕ) (audit owner id by : String) (d : Db)
    → IsInactiveGrant g d
    → IsInactiveGrant g (after d (revoke_sharing_grant now audit owner id by d))
unfolding revoke_sharing_grant
revoke_grant-IsInactiveGrant g now audit owner id by d v = ground (
  arith,
  any_row-update_where_none (active_grant g) (revocable_grant owner id) (revoked_grant_row now by)
      (λ x q e. absurd (ground arith)) d.sharing_grants,
)

module _ (hash : String → String) (g : String) where
  share-IsInactiveGrant :
      (c : SharingCall) (d : Db)
      → draws_grant g (Command.sharing c) ≡ false
      → IsInactiveGrant g d
      → IsInactiveGrant g (share c d)
  unfolding share
  share-IsInactiveGrant (SharingCall.create_key now contact id audit p) d u v =
      same_grants g d (share (SharingCall.create_key now contact id audit p) d)
        (create_key-SameButKeys d now contact id audit p).sharing_grants v
  share-IsInactiveGrant (SharingCall.update_key now p) d u v =
      same_grants g d (share (SharingCall.update_key now p) d)
        (update_key-SameButKeys d now p).sharing_grants v
  share-IsInactiveGrant (SharingCall.replace_key now at id audit p) d u v =
      same_grants g d (share (SharingCall.replace_key now at id audit p) d)
        (replace_key-SameButKeys d now at id audit p).sharing_grants v
  share-IsInactiveGrant (SharingCall.end_key now audit e owner id) d u v =
      same_grants g d (share (SharingCall.end_key now audit e owner id) d)
        (end_key-SameButKeys d now audit e owner id).sharing_grants v
  share-IsInactiveGrant (SharingCall.create_grant now id audit p) d u v =
      create_grant-IsInactiveGrant g now id audit p d u v
  share-IsInactiveGrant (SharingCall.revoke_grant now audit owner id by) d u v =
      revoke_grant-IsInactiveGrant g now audit owner id by d v
  share-IsInactiveGrant (SharingCall.create_wrapped checked now id audit p) d u v =
      same_grants g d (share (SharingCall.create_wrapped checked now id audit p) d)
        (create_wrapped-SameButWrapped d checked now id audit p).sharing_grants v
  share-IsInactiveGrant (SharingCall.revoke_wrapped now audit owner id by) d u v =
      same_grants g d (share (SharingCall.revoke_wrapped now audit owner id by) d)
        (revoke_wrapped-SameButWrapped d now audit owner id by).sharing_grants v
  share-IsInactiveGrant (SharingCall.invite now id p) d u v =
      same_grants g d (share (SharingCall.invite now id p) d)
        (invite-SameButContacts d now id p).sharing_grants v
  share-IsInactiveGrant (SharingCall.answer now a recipient id) d u v =
      same_grants g d (share (SharingCall.answer now a recipient id) d)
        (answer-SameButContacts d now a recipient id).sharing_grants v
  share-IsInactiveGrant (SharingCall.revoke_relationship now owner id by) d u v =
      same_grants g d (share (SharingCall.revoke_relationship now owner id by) d)
        (revoke_relationship-SameButContacts d now owner id by).sharing_grants v
  share-IsInactiveGrant (SharingCall.replace_relationship now at id p) d u v =
      same_grants g d (share (SharingCall.replace_relationship now at id p) d)
        (replace_relationship-SameButContacts d now at id p).sharing_grants v
  share-IsInactiveGrant (SharingCall.create_recipient_key now recipient id p) d u v =
      same_grants g d (share (SharingCall.create_recipient_key now recipient id p) d)
        (create_recipient_key-SameButContacts d now recipient id p).sharing_grants v
  share-IsInactiveGrant (SharingCall.update_recipient_key now p) d u v =
      same_grants g d (share (SharingCall.update_recipient_key now p) d)
        (update_recipient_key-SameButContacts d now p).sharing_grants v
  share-IsInactiveGrant (SharingCall.end_recipient now e owner id) d u v =
      same_grants g d (share (SharingCall.end_recipient now e owner id) d)
        (end_recipient-SameButContacts d now e owner id).sharing_grants v
  share-IsInactiveGrant (SharingCall.replace_recipient_key now at id p) d u v =
      same_grants g d (share (SharingCall.replace_recipient_key now at id p) d)
        (replace_recipient_key-SameButContacts d now at id p).sharing_grants v

  exec-IsInactiveGrant :
      (c : Command) (d : Db)
      → draws_grant g c ≡ false
      → IsInactiveGrant g d
      → IsInactiveGrant g (exec hash c d)
  unfolding exec
  exec-IsInactiveGrant (Command.create_incident now id account p) d u v =
      same_grants g d (exec hash (Command.create_incident now id account p) d)
        (create_incident-SameSharing hash d now id account p).sharing_grants v
  exec-IsInactiveGrant (Command.close now id) d u v =
      same_grants g d (exec hash (Command.close now id) d)
        (close-SameSharing hash d now id).sharing_grants v
  exec-IsInactiveGrant (Command.create_stream now id i m label) d u v =
      same_grants g d (exec hash (Command.create_stream now id i m label) d)
        (create_stream-SameSharing hash d now id i m label).sharing_grants v
  exec-IsInactiveGrant (Command.complete_stream now i k n) d u v =
      same_grants g d (exec hash (Command.complete_stream now i k n) d)
        (complete_stream-SameSharing hash d now i k n).sharing_grants v
  exec-IsInactiveGrant (Command.fail_stream now i k reason) d u v =
      same_grants g d (exec hash (Command.fail_stream now i k reason) d)
        (fail_stream-SameSharing hash d now i k reason).sharing_grants v
  exec-IsInactiveGrant (Command.add_chunk now id p) d u v =
      same_grants g d (exec hash (Command.add_chunk now id p) d)
        (add_chunk-SameSharing hash d now id p).sharing_grants v
  exec-IsInactiveGrant (Command.add_checkin now id i p) d u v =
      same_grants g d (exec hash (Command.add_checkin now id i p) d)
        (add_checkin-SameSharing hash d now id i p).sharing_grants v
  exec-IsInactiveGrant (Command.create_token now id raw i label expires) d u v =
      same_grants g d (exec hash (Command.create_token now id raw i label expires) d)
        (create_token-SameSharing hash d now id raw i label expires).sharing_grants v
  exec-IsInactiveGrant (Command.revoke_token now id) d u v =
      same_grants g d (exec hash (Command.revoke_token now id) d)
        (revoke_token-SameSharing hash d now id).sharing_grants v
  exec-IsInactiveGrant (Command.reserve_upload now id p) d u v =
      same_grants g d (exec hash (Command.reserve_upload now id p) d)
        (reserve_upload-SameSharing hash d now id p).sharing_grants v
  exec-IsInactiveGrant (Command.complete_upload now p c) d u v =
      same_grants g d (exec hash (Command.complete_upload now p c) d)
        (complete_upload-SameSharing hash d now p c).sharing_grants v
  exec-IsInactiveGrant (Command.request_deletion now id ids p) d u v =
      same_grants g d (exec hash (Command.request_deletion now id ids p) d)
        (request_deletion-SameSharing hash d now id ids p).sharing_grants v
  exec-IsInactiveGrant (Command.claim_deletion now id stale) d u v =
      same_grants g d (exec hash (Command.claim_deletion now id stale) d)
        (claim_deletion-SameSharing hash d now id stale).sharing_grants v
  exec-IsInactiveGrant (Command.item_deleted now id) d u v =
      same_grants g d (exec hash (Command.item_deleted now id) d)
        (item_deleted-SameSharing hash d now id).sharing_grants v
  exec-IsInactiveGrant (Command.item_failed now id code) d u v =
      same_grants g d (exec hash (Command.item_failed now id code) d)
        (item_failed-SameSharing hash d now id code).sharing_grants v
  exec-IsInactiveGrant (Command.fail_deletion now id code) d u v =
      same_grants g d (exec hash (Command.fail_deletion now id code) d)
        (fail_deletion-SameSharing hash d now id code).sharing_grants v
  exec-IsInactiveGrant (Command.complete_deletion now audit id) d u v =
      let e = exec hash (Command.complete_deletion now audit id) d in
      elim (complete_deletion-frame d now audit id) [
        | inl s ↦ same_grants g d e s.sharing_grants v
        | inr (i, s) ↦
            subst (λ l. any_row (active_grant g) l ≡ false) (sym s.sharing_grants)
              (any_row-delete_where (active_grant g) (λ (r : SharingGrant). r.incident_id == i)
                d.sharing_grants v)
      ]
  exec-IsInactiveGrant (Command.sharing c) d u v = share-IsInactiveGrant c d u v

  pub run-IsInactiveGrant :
      (cs : List Command) (d : Db)
      → All (λ c. draws_grant g c ≡ false) cs
      → IsInactiveGrant g d
      → IsInactiveGrant g (run hash cs d)
  unfolding run
  run-IsInactiveGrant [] d u v = v
  run-IsInactiveGrant (c ∷ cs) d u v =
      run-IsInactiveGrant cs (exec hash c d) u.1 (exec-IsInactiveGrant c d u.0 v)
