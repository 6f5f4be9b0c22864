-- ===== src/Monitor/Main.antt =====
-- monitor/Main.cpp, with Initialize of monitor/RealworkMonitor.cpp: the start of the monitor, and
-- its wait for a signal or for the end of a thread. The configuration file, atoi(), access(),
-- fopen() and the calls for signals and threads are arguments.
pub mod Laws
use others.Base.{
  ℕ, ◌+◌, Bool, true, false, not, ◌||◌, ◌==◌, if◌then◌else◌, List, [], ◌∷◌, ◌++◌, Option, none,
  some, Bytes, codes, is_empty,
}
use others.Base.Int.{ℤ}
use others.Common.Conf.{open_conf, read}
use others.Monitor.Threads.{
  Pthread, Watcher, watchers, start_monitor, check_running_status, stop_monitor,
}

-- What Initialize reads: the fields of RealworkMonitor, and what goes to AoSender::Initialize.
pub record Settings : Type 0 where
  pub proc_check_interval : ℤ
  pub log_check_interval : ℤ
  pub recv_proc_file_name : Bytes
  pub refl_proc_file_name : Bytes
  pub recv_first_log_file_name : Bytes
  pub recv_second_log_file_name : Bytes
  pub refl_first_log_file_name : Bytes
  pub refl_second_log_file_name : Bytes
  pub recv_oc_name : Bytes
  pub recv_ao_id : Bytes
  pub refl_oc_name : Bytes
  pub refl_ao_id : Bytes

-- `accesses` is access(name, R_OK|X_OK) == 0, and `appends` whether fopen(name, "a+") works.
pub record System : Type 0 where
  pub atoi : Bytes → ℤ
  pub accesses : Bytes → Bool
  pub appends : Bytes → Bool

abbrev read_path : List (Bytes × Bytes) → Bytes → Bytes
read_path m key = read m (codes "path") key

abbrev read_common : List (Bytes × Bytes) → Bytes → Bytes
read_common m key = read m (codes "common") key

unfoldable pub read_settings : System → List (Bytes × Bytes) → Settings
read_settings sys m = record {
  proc_check_interval = sys.atoi (read_common m (codes "RTWORK_MONI_PROC_CHK_INTERVAL"));
  log_check_interval = sys.atoi (read_common m (codes "RTWORK_MONI_LOG_CHK_INTERVAL"));
  recv_proc_file_name = read_path m (codes "RTWORK_RECV_PROC_FILE");
  refl_proc_file_name = read_path m (codes "RTWORK_REFL_PROC_FILE");
  recv_first_log_file_name = read_path m (codes "RTWORK_RECV_CMD_LOG_FILE") ++ codes ".1";
  recv_second_log_file_name = read_path m (codes "RTWORK_RECV_CMD_LOG_FILE") ++ codes ".2";
  refl_first_log_file_name = read_path m (codes "RTWORK_REFL_CMD_LOG_FILE") ++ codes ".1";
  refl_second_log_file_name = read_path m (codes "RTWORK_REFL_CMD_LOG_FILE") ++ codes ".2";
  recv_oc_name = read_path m (codes "RTWORK_RECV_OC_NAME");
  recv_ao_id = read_path m (codes "RTWORK_RECV_AO_ID");
  refl_oc_name = read_path m (codes "RTWORK_REFL_OC_NAME");
  refl_ao_id = read_path m (codes "RTWORK_REFL_AO_ID");
}

-- The checks of Initialize, in their order.
unfoldable pub is_accepted : System → Settings → Bool
is_accepted sys s =
    if not (sys.accesses s.recv_proc_file_name)
    then false
    else if not (sys.accesses s.refl_proc_file_name)
    then false
    else if is_empty s.recv_oc_name
    then false
    else if is_empty s.recv_ao_id
    then false
    else if is_empty s.refl_oc_name
    then false
    else if is_empty s.refl_ao_id
    then false
    else if not (sys.appends s.recv_first_log_file_name)
    then false
    else sys.appends s.refl_first_log_file_name

-- RealworkMonitor::Initialize, of the configuration file: `none` is false.
unfoldable pub initialize : System → Option Bytes → Option Settings
initialize sys conf =
    let (opened, m) = open_conf conf [] in
    let s = read_settings sys m in
    if not opened then none else if is_accepted sys s then some s else none

-- The exit codes of monitor/include/MonitorCommon.h
pub data MonitorExit : Type 0 where
  norm sigregerr sigmskgerr sigumskgerr paramerr conferr initerr oterr : MonitorExit

unfoldable pub exit_code : MonitorExit → ℕ
exit_code norm = 0
exit_code sigregerr = 1
exit_code sigmskgerr = 2
exit_code sigumskgerr = 3
exit_code paramerr = 4
exit_code conferr = 5
exit_code initerr = 6
exit_code oterr = 7

-- One turn of the wait: the threads when they are looked at, whether the signals can be unmasked
-- and masked again, whether the signal to stop comes in between, and the threads when they are
-- stopped.
pub record Turn : Type 0 where
  pub threads : Watcher → Pthread
  pub unmasks : Bool
  pub signalled : Bool
  pub masks : Bool
  pub at_stop : Watcher → Pthread

-- How the monitor goes on: it exits, after it has cancelled some threads, exits with -1 for a log
-- file that INIT_TRACE cannot open, or runs.
pub data Ended : Type 0 where
  exited : MonitorExit → List Watcher → Ended
  log_error : Ended
  running : Ended

-- sigTerm, after StopMonitor
unfoldable pub sig_term : List Watcher × Bool → Ended
sig_term (stopped, true) = exited norm stopped
sig_term (stopped, false) = exited oterr stopped

-- The end of main after an error, after StopMonitor
unfoldable pub give_up : List Watcher × Bool → Ended
give_up (stopped, ret) = exited oterr stopped

-- The wait of main.
unfoldable pub wait_loop : List Watcher → List Turn → Ended
wait_loop made [] = running
wait_loop made (e ∷ es) =
    let rest = wait_loop made es in
    if not (check_running_status made e.threads)
    then give_up (stop_monitor made e.at_stop)
    else if not e.unmasks
    then give_up (stop_monitor made e.at_stop)
    else if e.signalled
    then sig_term (stop_monitor made e.at_stop)
    else if not e.masks
    then give_up (stop_monitor made e.at_stop)
    else rest

-- What main is given: argc, whether sigaction() and the first sigprocmask() work, the configuration
-- file at its two openings, whether the log files can be opened, and what pthread returns for the threads when they are started and when
-- they are stopped after a failed start.
pub record Start : Type 0 where
  pub argc : ℕ
  pub registers : Bool
  pub masks : Bool
  pub conf : Option Bytes
  pub conf_again : Option Bytes
  pub opens_logs : Bool
  pub sys : System
  pub threads : Watcher → Pthread
  pub at_stop : Watcher → Pthread

-- main after the initialization.
unfoldable pub run_started : Start → List Turn → List Watcher × Bool → Ended
run_started s es (made, true) = wait_loop made es
run_started s es (made, false) = give_up (stop_monitor made s.at_stop)

unfoldable pub run_initialized : Start → List Turn → Option Settings → Ended
run_initialized s es none = exited initerr []
run_initialized s es (some settings) = run_started s es (start_monitor s.threads)

-- main
unfoldable pub main : Start → List Turn → Ended
main s es =
    if not (s.argc == 2)
    then exited paramerr []
    else if not s.registers
    then exited sigregerr []
    else if not s.masks
    then exited sigmskgerr []
    else if not (open_conf s.conf []).0
    then exited conferr []
    else if not s.opens_logs
    then log_error
    else run_initialized s es (initialize s.sys s.conf_again)
