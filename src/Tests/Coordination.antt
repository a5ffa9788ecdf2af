-- ===== src/Tests/Coordination.antt =====
-- Leases and limits on a service that is a list of keys with values and a number of hits.
use safety_recorder.Coordination.{
  Client, Reply, UploadLease, acquire_upload_lease, release_upload_lease, answer, done,
}
use safety_recorder.Coordination.Leases.{HoldsValues, held_lease_excludes}
use safety_recorder.Coordination.Limits.{CountsHits, allowed_of, allowed_of-min}
use safety_recorder.Base.{
  [], ◌∷◌, none, some, ◌≡◌, refl, arith, ℕ, String, true, false, ◌==◌, ◌+◌, List, Option, Bool,
  if◌then◌else◌, is_some, ◌&&◌, ==_refl,
}

pub record Service : Type 0 where
  pub values : List (String × String)
  pub count : ℕ

abbrev value_of : String → List (String × String) → Option String
value_of k [] = none
value_of k (e ∷ es) = if e.0 == k then some e.1 else value_of k es

abbrev holder_of : String → Service → Option String
holder_of k s = value_of k s.values

abbrev set_nx : String → String → ℕ → Service → Reply Bool × Service
set_nx k v ttl s =
    if is_some (value_of k s.values)
    then (answer false, s)
    else (answer true, record s { values = (k, v) ∷ s.values })

abbrev remove_value : String → String → List (String × String) → List (String × String)
remove_value k v [] = []
remove_value k v (e ∷ es) = if e.0 == k && e.1 == v then es else e ∷ remove_value k v es

abbrev pub service : Client Service
service = record {
  ping = λ s. answer tt;
  increment_with_expiry = λ k window s. (answer (s.count + 1), record s { count = s.count + 1 });
  set_nx_with_expiry = set_nx;
  delete_if_value = λ k v s. (answer true, record s { values = remove_value k v s.values });
}

service-HoldsValues : HoldsValues service holder_of
service-HoldsValues = record {
  on_set = λ k v ttl s h. ground (arith, ==_refl k);
  on_busy = λ k v w ttl s h. ground arith;
}

pub service-CountsHits : CountsHits service (λ k s. s.count)
service-CountsHits = record { on_hit = λ k window s. (refl, refl) }

abbrev pub idle : Service
idle = record { values = []; count = 0 }

abbrev held : Service
held = record { values = ("upload", "one") ∷ []; count = 0 }

abbrev lease : UploadLease
lease = record { key = "upload"; token = "one"; acquired = true; retry_after = 5 }

abbrev busy : UploadLease
busy = record { key = "upload"; token = ""; acquired = false; retry_after = 5 }

acquire_run : acquire_upload_lease service (some "one") "upload" 5 idle ≡ (done lease, held)
unfolding acquire_upload_lease ◌==◌
acquire_run = refl

busy_run : acquire_upload_lease service (some "two") "upload" 5 held ≡ (done busy, held)
unfolding acquire_upload_lease ◌==◌
busy_run = refl

held_lease_excludes_example :
    (busy.acquired ≡ false)
    × (holder_of "upload" (release_upload_lease service busy held).1 ≡ some "one")
unfolding ◌==◌
held_lease_excludes_example =
    held_lease_excludes service holder_of service-HoldsValues "one" "two" "upload" 5 5 idle held
      held lease busy acquire_run refl refl refl refl busy_run

allowed_of-min_example : allowed_of service (λ k s. s.count) "client" 2 60 3 idle ≡ 2
allowed_of-min_example =
    allowed_of-min service (λ k s. s.count) service-CountsHits "client" 2 60 3 idle refl refl refl
