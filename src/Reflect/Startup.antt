-- ===== src/Reflect/Startup.antt =====
-- The start and the end of reflect/Main.cpp, with Initialize of reflect/WorkReflector.cpp. The
-- configuration files, stat(), access() and sigaction() are arguments.
pub mod Laws
use others.Base.{
  ℕ, ◌+◌, Bool, true, false, not, ◌&&◌, ◌==◌, if◌then◌else◌, List, [], ◌∷◌, ◌++◌, Option, none,
  some, Bytes, codes, is_empty,
}
use others.Common.Conf.{open_conf, read}
use others.Reflect.{check_dir}
use others.Reflect.Files.{Directory}
use others.Reflect.Cycle.{
  Dirs, Env, WorkReflector, Notice, app_start, init_error, app_exit, Outcome, again, user_stopped,
  broken, main_loop,
}

-- PERM_READ, PERM_WRITE and PERM_EXECUTE: R_OK, W_OK and X_OK
abbrev pub perm_read : ℕ
perm_read = 4

abbrev pub perm_write : ℕ
perm_write = 2

abbrev pub perm_execute : ℕ
perm_execute = 1

-- What stat() and access() answer; `access name perm` is whether access() returns 0.
pub record System : Type 0 where
  pub mode : Bytes → Option ℕ
  pub access : Bytes → ℕ → Bool

-- The names that Initialize reads.
pub record Paths : Type 0 where
  pub csv_input_dir : Bytes
  pub dat_output_dir : Bytes
  pub csv_backup_dir : Bytes
  pub dat_backup_dir : Bytes
  pub oc_script_file : Bytes
  pub oc_config_file : Bytes

-- How Initialize ends: with true, with false, or with the exception of at() on an empty name.
pub data Initialized : Type 0 where
  ready : Paths → Initialized
  refused : Initialized
  thrown : Initialized

abbrev pub with_dir : Option (Bool × Bytes) → (Bytes → Initialized) → Initialized
with_dir none k = thrown
with_dir (some (false, n)) k = refused
with_dir (some (true, n)) k = k n

unfoldable pub checked_dir : System → ℕ → Bytes → Option (Bool × Bytes)
checked_dir sys perm name = check_dir (sys.mode name) (sys.access name perm) name

abbrev read_path : List (Bytes × Bytes) → Bytes → Bytes
read_path m key = read m (codes "path") key

-- The names as the configuration gives them.
unfoldable pub read_paths : List (Bytes × Bytes) → Paths
read_paths m = record {
  csv_input_dir = read_path m (codes "RTWORK_REFL_CSV_INPUT_DIR");
  dat_output_dir = read_path m (codes "RTWORK_REFL_DAT_OUTPUT_DIR");
  csv_backup_dir = read_path m (codes "RTWORK_REFL_BACKUP_CSV_DIR");
  dat_backup_dir = read_path m (codes "RTWORK_REFL_BACKUP_DAT_DIR");
  oc_script_file = read_path m (codes "RTWORK_REFL_OC_SCRIPT_FILE");
  oc_config_file = read_path m (codes "RTWORK_REFL_OC_CONFIG_FILE");
}

-- The last two checks of Initialize, on the script and its configuration.
unfoldable pub check_files : System → Paths → Initialized
check_files sys p =
    if not (sys.access p.oc_script_file (perm_read + perm_execute))
    then refused
    else if not (sys.access p.oc_config_file perm_read)
    then refused
    else ready p

-- The checks of Initialize on the names that it has read.
unfoldable pub check_paths : System → Paths → Initialized
check_paths sys p = with_dir (checked_dir sys (perm_read + perm_execute) p.csv_input_dir) λ input.
    with_dir (checked_dir sys (perm_read + perm_write + perm_execute) p.dat_output_dir) λ output.
      with_dir (checked_dir sys (perm_read + perm_write + perm_execute) p.csv_backup_dir) λ csv.
        with_dir (checked_dir sys (perm_read + perm_write + perm_execute) p.dat_backup_dir) λ dat.
          check_files sys (record p {
            csv_input_dir = input;
            dat_output_dir = output;
            csv_backup_dir = csv;
            dat_backup_dir = dat;
          })

-- WorkReflector::Initialize, of the configuration file; `none`: it cannot be read.
unfoldable pub initialize : System → Option Bytes → Initialized
initialize sys conf =
    let (opened, m) = open_conf conf [] in
    if not opened then refused else check_paths sys (read_paths m)

-- ReflExit_e
pub data ReflExit : Type 0 where
  norm paramerr conferr sigregerr initerr oterr : ReflExit

unfoldable pub exit_code : ReflExit → ℕ
exit_code norm = 0
exit_code paramerr = 1
exit_code conferr = 2
exit_code sigregerr = 3
exit_code initerr = 4
exit_code oterr = 5

-- How main ends: it exits, with ReflExit_e or with the exit(-1) of a log file that INIT_TRACE cannot
-- open, runs on, or has been aborted by an exception; with what it has told.
pub data Ended : Type 0 where
  exited : ReflExit → List Notice → Ended
  log_error : List Notice → Ended
  running : List Notice → Ended
  aborted : List Notice → Ended

abbrev pub empty_reflector : Dirs → WorkReflector
empty_reflector dirs = record {
  user_stop = false;
  csv_input_files = [];
  merge_output_file = [];
  dirs = dirs;
  notices = app_start ∷ [];
}

-- The end of main, after the loop.
unfoldable pub finish : Outcome × WorkReflector → Ended
finish (again, r) = running r.notices
finish (user_stopped, r) = exited norm (r.notices ++ app_exit ∷ [])
finish (broken, r) = exited oterr (r.notices ++ app_exit ∷ [])

-- main from the call of Initialize on; `none`: the loop of the rounds given does not end.
unfoldable pub run_initialized :
    (List Bytes → List Bytes) → List Env → Dirs → Initialized → Option Ended
run_initialized sort es dirs refused = some (exited initerr (app_start ∷ init_error ∷ []))
run_initialized sort es dirs thrown = some (aborted (app_start ∷ []))
run_initialized sort es dirs (ready p) = elim (main_loop sort es (empty_reflector dirs)) [
  | none ↦ none
  | some out ↦ some (finish out)
]

-- What main is given: argc, the configuration file at its two openings, whether the log files can be
-- opened and sigaction() works, and the directories.
pub record Start : Type 0 where
  pub argc : ℕ
  pub conf : Option Bytes
  pub conf_again : Option Bytes
  pub opens_logs : Bool
  pub registers : Bool
  pub sys : System
  pub dirs : Dirs

-- main
unfoldable pub main : (List Bytes → List Bytes) → Start → List Env → Option Ended
main sort s es =
    let (opened, m) = open_conf s.conf [] in
    let entity = read m (codes "command") (codes "RTWORK_REFL_NOTIFY_OSI_ENTITY") in
    if not (s.argc == 2)
    then some (exited paramerr [])
    else if not opened
    then some (exited conferr [])
    else if not s.opens_logs
    then some (log_error [])
    else if is_empty entity
    then some (exited oterr [])
    else if not s.registers
    then some (exited sigregerr [])
    else run_initialized sort es s.dirs (initialize s.sys s.conf_again)
