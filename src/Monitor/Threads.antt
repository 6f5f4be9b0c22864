-- ===== src/Monitor/Threads.antt =====
-- The threads of the monitor (monitor/WatchThread.cpp), and the three of them together
-- (StartMonitor, CheckRunningStatus and StopMonitor of monitor/RealworkMonitor.cpp). What the calls
-- of pthread return is an argument.
pub mod Stops
use others.Base.{ℕ, Bool, true, false, not, ◌&&◌, ◌==◌, if◌then◌else◌, List, [], ◌∷◌, ◌++◌}

-- What pthread_create, pthread_kill, pthread_cancel and pthread_join return for a thread, and
-- whether it ends with WATCHER_EXIT_NORMAL.
pub record Pthread : Type 0 where
  pub create : ℕ
  pub kill : ℕ
  pub cancel : ℕ
  pub join : ℕ
  pub normal : Bool

-- WatchThread::IsRunning; `made` is whether m_thread is not 0.
unfoldable pub is_running : Bool → Pthread → Bool
is_running made t = if made then t.kill == 0 else false

-- WatchThread::Start: m_thread is set where the thread is made.
unfoldable pub start : Pthread → Bool
start t = t.create == 0

-- WatchThread::Stop
unfoldable pub stop : Pthread → Bool
stop t = if not (t.cancel == 0) then false else if not (t.join == 0) then false else t.normal

-- The three watchers of RealworkMonitor.
pub data Watcher : Type 0 where
  process recv_log refl_log : Watcher

abbrev pub watchers : List Watcher
watchers = process ∷ recv_log ∷ refl_log ∷ []

-- StartMonitor: which of them have been made, and whether all have.
unfoldable pub start_all : (Watcher → Pthread) → List Watcher → List Watcher × Bool
start_all t [] = ([], true)
start_all t (w ∷ ws) =
    let rest = start_all t ws in if start (t w) then (w ∷ rest.0, rest.1) else ([], false)

abbrev same : Watcher → Watcher → Bool
same process process = true
same recv_log recv_log = true
same refl_log refl_log = true
same _ _ = false

abbrev pub is_made : List Watcher → Watcher → Bool
is_made [] w = false
is_made (v ∷ vs) w = if same v w then true else is_made vs w

unfoldable pub start_monitor : (Watcher → Pthread) → List Watcher × Bool
start_monitor t = start_all t watchers

-- CheckRunningStatus
unfoldable pub check_running_status : List Watcher → (Watcher → Pthread) → Bool
check_running_status made t =
    is_running (is_made made process) (t process)
    && (is_running (is_made made recv_log) (t recv_log)
        && is_running (is_made made refl_log) (t refl_log))

-- One thread of StopMonitor: the threads that pthread_cancel has been called for, and `ret`.
unfoldable pub stop_one :
    List Watcher → (Watcher → Pthread) → Watcher → List Watcher × Bool → List Watcher × Bool
stop_one made t w (stopped, ret) =
    if is_running (is_made made w) (t w)
    then (stopped ++ w ∷ [], if not (stop (t w)) then false else ret)
    else (stopped, ret)

-- StopMonitor
unfoldable pub stop_monitor : List Watcher → (Watcher → Pthread) → List Watcher × Bool
stop_monitor made t =
    stop_one made t refl_log (stop_one made t recv_log (stop_one made t process ([], true)))
