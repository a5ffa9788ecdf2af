-- ===== src/System/Closed.antt =====
-- Closed incidents: no call opens them again, and none adds a chunk to them.
use safety_recorder.Repository.Incidents.{find_incident}
use safety_recorder.System.Latch.Run.{run-latched}
use safety_recorder.System.Latch.Defs.{IsLatch, latched_in, latched_in-find}
use safety_recorder.Repository.Chunks.{create_chunk}
use safety_recorder.System.{Command, run}
use safety_recorder.Base.{
  ℕ, String, Bool, true, false, not, List, ◌≡◌, ◌≢◌, refl, arith, ==_refl, ◌==◌, ap, Option-cases,
  inl, inr,
}
use safety_recorder.Model.{Incident, is_closed, Db, CreateChunkParams, Chunk, ok}

abbrev pub open_live : Incident → Bool
open_live r = not (is_closed r.status)

-- Is the incident known, and closed?
abbrev pub closed_in : String → List Incident → Bool
closed_in = latched_in open_live

open-IsLatch : IsLatch open_live
open-IsLatch = record {
  closing = λ now x h. refl;
  marking = λ now s x e h. h;
  ending = λ now x h. refl;
}

closed_refuses_chunk :
    (d d' : Db) (i : String) (now : ℕ) (id : String) (p : CreateChunkParams) (c : Chunk)
    → closed_in i d.incidents ≡ true
    → create_chunk now id p d ≡ ok (c, d')
    → (p.incident_id == i) ≡ false
unfolding create_chunk
closed_refuses_chunk d d' i now id p c h e = elim (Option-cases (find_incident p.incident_id d)) [
  | inl f ↦ absurd (ground arith)
  | inr (r, f) ↦ ground (arith, latched_in-find open_live i p.incident_id d.incidents r h)
]

-- Once an incident is closed, no chunk is accepted for it after any of the modelled writing calls, in
-- any order.
pub closed_incident_refuses_chunks :
    (hash : String → String) (i : String) (cs : List Command) (d d' : Db) (now : ℕ) (id : String)
    (p : CreateChunkParams) (c : Chunk)
    → closed_in i d.incidents ≡ true
    → create_chunk now id p (run hash cs d) ≡ ok (c, d')
    → p.incident_id ≢ i
closed_incident_refuses_chunks hash i cs d d' now id p c h e = λ q. ground (
  arith,
  ==_refl i,
  ap (λ s. s == i) q,
  closed_refuses_chunk (run hash cs d) d' i now id p c
      (run-latched hash open_live open-IsLatch i cs d h) e,
)
