-- ===== src/Monitor/Process.antt =====
-- The state of the watched processes and the alarms about it (monitor/ProcessWatcher.cpp). What
-- sigtimedwait and fuser tell comes as a list of polls.
pub mod Alarms
pub mod Both
use others.Base.{
  ℕ, ◌≡◌, Bool, true, false, not, ◌&&◌, ◌||◌, ◌==◌, if◌then◌else◌, List, [], ◌∷◌, ◌++◌, Option,
  none, some,
}

-- PROCESS_STATUS_*
pub data Status : Type 0 where
  dummy : Status
  started : Status
  stopping : Status
  stopped : Status

-- One look at a process: whether the stop signal is pending, and what IsProcessStarted returns:
-- -1, 0, or the process id.
pub record Poll : Type 0 where
  pub signalled : Bool
  pub pid : Option ℕ

-- isProcStopping and procPid
pub record Watched : Type 0 where
  pub is_stopping : Bool
  pub proc_pid : ℕ

-- isProcStopping after the two checks of GetProcessStatus, for a process id that is not -1.
unfoldable pub still_stopping : Bool → ℕ → ℕ → Bool
still_stopping stop pid old = not (pid == 0) && stop && pid == old

unfoldable pub status_of : Bool → ℕ → Status
status_of stop pid = if pid == 0 then stopped else if stop then stopping else started

-- GetProcessStatus; `none` is PROCESS_STATUS_ERROR.
unfoldable pub get_process_status : Poll → Watched → Watched × Option Status
get_process_status p w =
    let stop = p.signalled || w.is_stopping in
    elim p.pid [
      | none ↦ (record w { is_stopping = stop }, none)
      | some pid ↦
          let still = still_stopping stop pid w.proc_pid in
          (record { is_stopping = still; proc_pid = pid }, some (status_of still pid))
    ]

abbrev pub same_status : Status → Status → Bool
same_status dummy dummy = true
same_status started started = true
same_status stopping stopping = true
same_status stopped stopped = true
same_status _ _ = false

-- The alarm that the loop of Run sends for one process: `dummy` never is a new status.
unfoldable pub alarm : Status → Status → List Status
alarm old new = if same_status new old then [] else new ∷ []

-- The part of the loop of Run for one process, over its polls: the alarms in their order, and
-- whether the thread ends with an error.
unfoldable pub watch : List Poll → Watched → Status → List Status × Bool
watch [] w old = ([], false)
watch (p ∷ ps) w old =
    let r = get_process_status p w in
    elim r.1 [
      | none ↦ ([], true)
      | some new ↦ let rest = watch ps r.0 new in (alarm old new ++ rest.0, rest.1)
    ]

-- The two processes that Run watches.
pub data Process : Type 0 where
  recv refl_ : Process

unfoldable pub tag : Process → List Status → List (Process × Status)
tag p [] = []
tag p (s ∷ ss) = (p, s) ∷ tag p ss

-- The loop of Run for both processes, each with its own state: the alarms in their order, and
-- whether the thread ends with an error.
unfoldable pub watch_both :
    List (Poll × Poll) → Watched → Watched → Status → Status → List (Process × Status) × Bool
watch_both [] w v old old' = ([], false)
watch_both (p ∷ ps) w v old old' =
    let r = get_process_status p.0 w in
    let q = get_process_status p.1 v in
    elim r.1 [
      | none ↦ ([], true)
      | some new ↦ elim q.1 [
        | none ↦ (tag recv (alarm old new), true)
        | some new' ↦
            let rest = watch_both ps r.0 q.0 new new' in
            (tag recv (alarm old new) ++ (tag refl_ (alarm old' new') ++ rest.0), rest.1)
      ]
    ]
