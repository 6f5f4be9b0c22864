-- ===== src/Monitor/Threads/Stops.antt =====
-- The monitor stops all of its threads that run, whatever becomes of the others.
use others.Base.{◌≡◌, ◌↔◌, arith, true, ◌&&◌, ◌==◌, if◌then◌else◌, List, [], ◌∷◌}
use others.Monitor.Threads.{
  Pthread, is_running, start, stop, Watcher, process, recv_log, refl_log, watchers, is_made,
  start_all, start_monitor, check_running_status, stop_one, stop_monitor,
}

-- The watchers of a list that run: those that are made, and that pthread_kill finds.
abbrev pub running : List Watcher → (Watcher → Pthread) → List Watcher → List Watcher
running made t [] = []
running made t (w ∷ ws) =
    let rest = running made t ws in if is_made made w && (t w).kill == 0 then w ∷ rest else rest

-- Each thread that runs can be cancelled and joined, and ends with WATCHER_EXIT_NORMAL.
abbrev pub AllStop : List Watcher → (Watcher → Pthread) → List Watcher → Type 0
AllStop made t [] = Unit {0}
AllStop made t (w ∷ ws) =
    (is_made made w ≡ true
      → (t w).kill ≡ 0
      → ((t w).cancel ≡ 0) × ((t w).join ≡ 0) × ((t w).normal ≡ true))
    × AllStop made t ws

-- StopMonitor cancels just the threads that run, in their order, also after one of them could not
-- be stopped; and it succeeds exactly when each of these could be stopped and ended normally.
pub stop_monitor-all :
    (made : List Watcher) (t : Watcher → Pthread)
    → ((stop_monitor made t).0 ≡ running made t watchers)
      × (((stop_monitor made t).1 ≡ true) ↔ AllStop made t watchers)
unfolding stop_monitor stop_one is_running stop
stop_monitor-all made t = ground arith

-- Where StartMonitor succeeds, and the threads that it made are alive, CheckRunningStatus finds
-- that all run; where it fails, at least one watcher is not made, and CheckRunningStatus says so.
pub start_monitor-check :
    (t u : Watcher → Pthread)
    → ((w : Watcher) → (u w).kill ≡ 0)
    → check_running_status (start_monitor t).0 u ≡ (start_monitor t).1
unfolding start_monitor start_all check_running_status is_running start
start_monitor-check t u alive =
    let a = alive process in let b = alive recv_log in let c = alive refl_log in ground arith
