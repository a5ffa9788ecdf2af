-- ===== src/System/Inactive/Run.antt =====
-- Inactive incidents over any sequence of repository calls.
use safety_recorder.System.Latch.Run.{exec-latched, run-latched}
use safety_recorder.System.Inactive.Defs.{inactive_in, active_live, active-IsLatch}
use safety_recorder.Model.{Db}
use safety_recorder.System.{Command, exec, run}
use safety_recorder.Base.{String, List, ◌≡◌, true}

module _ (hash : String → String) where
  -- One call leaves an inactive incident inactive.
  pub exec-inactive :
      (i : String) (c : Command) (d : Db)
      → inactive_in i d.incidents ≡ true
      → inactive_in i (exec hash c d).incidents ≡ true
  exec-inactive = exec-latched hash active_live active-IsLatch

  -- An incident that is known and no longer active is so after any sequence of the modelled writing
  -- calls: none of them revives an incident that a deletion decision has reached.
  pub run-inactive :
      (i : String) (cs : List Command) (d : Db)
      → inactive_in i d.incidents ≡ true
      → inactive_in i (run hash cs d).incidents ≡ true
  run-inactive = run-latched hash active_live active-IsLatch
