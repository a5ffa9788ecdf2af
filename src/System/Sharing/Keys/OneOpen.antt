-- ===== src/System/Sharing/Keys/OneOpen.antt =====
-- Contacts have one open key at most after any sequence of calls.
use safety_recorder.System.Sharing.Keys.Run.{exec-KeysStep}
use safety_recorder.System.Sharing.Keys.Keyed.{KeyStep-IsKeyed}
use safety_recorder.System.{Command, run, exec, empty_db}
use safety_recorder.System.Sharing.Keys.Defs.{IsKeyed, open_of}
use safety_recorder.Base.{String, List, [], ◌∷◌, ◌≤◌, count_where, arith, refl, any_row, select}
use safety_recorder.Model.{Db, AccountRow}

pub run-IsKeyed :
    (hash : String → String) (cs : List Command) (d : Db)
    → IsKeyed d.contact_public_keys
    → IsKeyed (run hash cs d).contact_public_keys
unfolding run
run-IsKeyed hash [] d v = v
run-IsKeyed hash (c ∷ cs) d v =
    run-IsKeyed hash cs (exec hash c d) (KeyStep-IsKeyed (exec-KeysStep hash c d) v)

pub empty-IsKeyed : IsKeyed []
unfolding any_row select
empty-IsKeyed = record {
  one_open = λ o c. omega arith;
  has_first = λ o c h. absurd (cc h);
  unique = λ k. omega arith;
  known = refl;
}

-- From an empty database, whatever of the modelled writing calls ran in whatever order, of the public
-- keys of one contact one at most is pending verification or active.
pub one_open_key :
    (hash : String → String) (accounts : List AccountRow) (cs : List Command)
    (owner contact : String)
    → count_where (open_of owner contact) (run hash cs (empty_db accounts)).contact_public_keys ≤ 1
one_open_key hash accounts cs = (run-IsKeyed hash cs (empty_db accounts) empty-IsKeyed).one_open
