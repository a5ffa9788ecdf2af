-- ===== src/System/Inactive/Defs.antt =====
-- Incidents that are known and not active.
use safety_recorder.System.Latch.Defs.{IsLatch, latched_in, live_row, latched_in-find}
use safety_recorder.Base.{String, Bool, true, false, List, ◌≡◌, refl, ◌==◌, some, find_row}
use safety_recorder.Model.{Incident, is_active}

-- The state is reached by an incident that is not active.
abbrev pub active_live : Incident → Bool
active_live r = is_active r.deletion_state

abbrev pub active_row : String → Incident → Bool
active_row = live_row active_live

-- Is the incident known, and no longer active?
abbrev pub inactive_in : String → List Incident → Bool
inactive_in = latched_in active_live

pub active-IsLatch : IsLatch active_live
active-IsLatch = record {
  closing = λ now x h. h;
  marking = λ now s x e h. e;
  ending = λ now x h. refl;
}

-- What an insert for the incident `j` reads.
pub inactive_in-find :
    (i j : String) (l : List Incident) (r : Incident)
    → inactive_in i l ≡ true
    → (j == i) ≡ true
    → find_row (λ (x : Incident). x.id == j) l ≡ some r
    → is_active r.deletion_state ≡ false
inactive_in-find = latched_in-find active_live
