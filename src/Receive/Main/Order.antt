-- ===== src/Receive/Main/Order.antt =====
-- On which ways through main the object of a thread goes while the thread runs.
use others.Base.{Bool, true, false, if◌then◌else◌, List, [], ◌∷◌}
use others.Receive.Main.{
  Thread, work, hc, hc_check, db, Action, creates, cancels, waits, deletes, tells, exits,
  Connection, fails, interrupted, works_until_signal, works_until_failure, Making, no_objects,
  stops_at, all_made,
}

-- The threads that run.
pub record Live : Type 0 where
  pub work_runs : Bool
  pub hc_runs : Bool
  pub hc_check_runs : Bool
  pub db_runs : Bool

pub runs : Live → Thread → Bool
runs l work = l.work_runs
runs l hc = l.hc_runs
runs l hc_check = l.hc_check_runs
runs l db = l.db_runs

set_runs : Live → Thread → Bool → Live
set_runs l work b = record l { work_runs = b }
set_runs l hc b = record l { hc_runs = b }
set_runs l hc_check b = record l { hc_check_runs = b }
set_runs l db b = record l { db_runs = b }

-- Whether each object that is deleted belongs to a thread that does not run.
pub is_orderly : Live → List Action → Bool
is_orderly l [] = true
is_orderly l (creates t ∷ acts) = is_orderly (set_runs l t true) acts
is_orderly l (waits t ∷ acts) = is_orderly (set_runs l t false) acts
is_orderly l (deletes t ∷ acts) = let rest = is_orderly l acts in if runs l t then false else rest
is_orderly l (cancels t ∷ acts) = is_orderly l acts
is_orderly l (tells m ∷ acts) = is_orderly l acts
is_orderly l (exits n ∷ acts) = is_orderly l acts

abbrev pub none_runs : Live
none_runs = record { work_runs = false; hc_runs = false; hc_check_runs = false; db_runs = false }

-- Whether main ends with the work thread running: because the socket cannot be opened or ReadWork
-- is left, for another reason than the signal.
abbrev pub forgets_work : Connection → Bool
forgets_work fails = true
forgets_work interrupted = false
forgets_work works_until_signal = false
forgets_work works_until_failure = true

-- Whether a thread runs when main ends with the objects of the threads deleted: because Create() has
-- thrown after another thread was created, or as above.
abbrev pub forgets : Making → Connection → Bool
forgets no_objects k = false
forgets (stops_at work) k = false
forgets (stops_at hc_check) k = true
forgets (stops_at hc) k = true
forgets (stops_at db) k = true
forgets all_made k = forgets_work k
