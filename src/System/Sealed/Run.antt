-- ===== src/System/Sealed/Run.antt =====
-- Sealed streams over any sequence of repository calls.
use safety_recorder.Repository.Sharing.Frame.{share-SameEvidence}
use safety_recorder.System.Sealed.Pruning.{SamePruned-SameSealed, complete_deletion-SamePruned}
use safety_recorder.System.Sealed.Completion.{complete_stream-IsSealed}
use safety_recorder.System.Sealed.Uploads.{
  create_stream-SameSealed, fail_stream-SameSealed, add_chunk-SameSealed,
}
use safety_recorder.System.Frame.{
  create_incident-SameMedia, close-SameMedia, checkin-SameMedia, token-SameMedia, revoke-SameMedia,
  reserve-SameMedia, complete_upload-SameMedia, request-frame, claim-SameMedia,
  item_deleted-SameMedia, item_failed-SameMedia, fail_deletion-SameMedia, SameMedia,
}
use safety_recorder.System.Sealed.Defs.{IsSealed, SameMedia-IsSealed, IsSealed-of, SameSealed}
use safety_recorder.Base.{String, List, [], ◌∷◌}
use safety_recorder.Model.{Db}
use safety_recorder.System.{Command, exec, run}

module _ (hash : String → String) where
  keep_media :
      (c : Command) (d : Db) → SameMedia d (exec hash c d) → IsSealed d → IsSealed (exec hash c d)
  keep_media c d = SameMedia-IsSealed d (exec hash c d)

  keep-IsSealed :
      (c : Command) (d : Db) → SameSealed d (exec hash c d) → IsSealed d → IsSealed (exec hash c d)
  keep-IsSealed c d = IsSealed-of d (exec hash c d)

  exec-IsSealed : (c : Command) (d : Db) → IsSealed d → IsSealed (exec hash c d)
  unfolding exec
  exec-IsSealed (Command.create_incident now id account p) d =
      keep_media (Command.create_incident now id account p) d
        (create_incident-SameMedia d now id account p)
  exec-IsSealed (Command.close now id) d =
      keep_media (Command.close now id) d (close-SameMedia d now id)
  exec-IsSealed (Command.create_stream now id i m label) d =
      keep-IsSealed (Command.create_stream now id i m label) d
        (create_stream-SameSealed d now id i m label)
  exec-IsSealed (Command.complete_stream now i k n) d = complete_stream-IsSealed d now i k n
  exec-IsSealed (Command.fail_stream now i k reason) d =
      keep-IsSealed (Command.fail_stream now i k reason) d (fail_stream-SameSealed d now i k reason)
  exec-IsSealed (Command.add_chunk now id p) d =
      keep-IsSealed (Command.add_chunk now id p) d (add_chunk-SameSealed d now id p)
  exec-IsSealed (Command.add_checkin now id i p) d =
      keep_media (Command.add_checkin now id i p) d (checkin-SameMedia d now id i p)
  exec-IsSealed (Command.create_token now id raw i label expires) d =
      keep_media (Command.create_token now id raw i label expires) d
        (token-SameMedia d hash now id raw i label expires)
  exec-IsSealed (Command.revoke_token now id) d =
      keep_media (Command.revoke_token now id) d (revoke-SameMedia d now id)
  exec-IsSealed (Command.reserve_upload now id p) d =
      keep_media (Command.reserve_upload now id p) d (reserve-SameMedia d now id p)
  exec-IsSealed (Command.complete_upload now p c) d =
      keep_media (Command.complete_upload now p c) d (complete_upload-SameMedia d now p c)
  exec-IsSealed (Command.request_deletion now id ids p) d =
      keep_media (Command.request_deletion now id ids p) d (request-frame now id ids p d).0.media
  exec-IsSealed (Command.claim_deletion now id stale) d =
      keep_media (Command.claim_deletion now id stale) d (claim-SameMedia d now id stale)
  exec-IsSealed (Command.item_deleted now id) d =
      keep_media (Command.item_deleted now id) d (item_deleted-SameMedia d now id)
  exec-IsSealed (Command.item_failed now id code) d =
      keep_media (Command.item_failed now id code) d (item_failed-SameMedia d now id code)
  exec-IsSealed (Command.complete_deletion now audit id) d =
      keep-IsSealed (Command.complete_deletion now audit id) d (
        SamePruned-SameSealed d (exec hash (Command.complete_deletion now audit id) d)
          (complete_deletion-SamePruned d now audit id))
  exec-IsSealed (Command.fail_deletion now id code) d =
      keep_media (Command.fail_deletion now id code) d (fail_deletion-SameMedia d now id code)
  exec-IsSealed (Command.sharing c) d =
      let s = share-SameEvidence c d in keep_media (Command.sharing c) d (s.media_streams, s.chunks)

  -- If every complete stream of a database has exactly the chunks 1 to n that were expected, each of
  -- the stream's media type, so has every complete stream after any sequence of repository calls.
  pub run-IsSealed : (cs : List Command) (d : Db) → IsSealed d → IsSealed (run hash cs d)
  unfolding run
  run-IsSealed [] d h = h
  run-IsSealed (c ∷ cs) d h = run-IsSealed cs (exec hash c d) (exec-IsSealed c d h)
