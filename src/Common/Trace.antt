-- ===== src/Common/Trace.antt =====
-- The traces and the factory of logs: RTWTrace, RTWLogFactory and the macros INIT_LOG, INIT_TRACE
-- and TRACE_* in common/include/common_log.hxx and common/src/common_log.cxx, InitLog in
-- receive/WApp.cxx, and the program for shell scripts in common/sh_log/common_sh_log.cxx. Masks are
-- the numbers of their bits; a size that is not positive is 0.
pub mod Lines
pub mod Ready
pub mod InitLog
pub mod Shell
use Prim.Native.Nat.{bit_and}
use others.Base.{
  ℕ, suc, zero, ◌^◌, Bool, true, false, ◌==◌, if◌then◌else◌, List, [], ◌∷◌, ◌++◌, Option, none,
  some, Bytes, bytes_eq, codes,
}
use others.Common.Log.{RtwLog, log}

pub data Level : Type 0 where
  command error warning info debug trace data_ : Level

-- The trace objects, in the order in which they are declared.
abbrev number : Level → ℕ
number command = 0
number error = 1
number warning = 2
number info = 3
number debug = 4
number trace = 5
number data_ = 6

-- The shifts that the trace objects are made with.
abbrev pub shift_of : Level → ℕ
shift_of command = 0
shift_of error = 0
shift_of warning = 1
shift_of info = 2
shift_of debug = 3
shift_of trace = 4
shift_of data_ = 5

-- 1<<(shift-1), with what the machine makes of 1<<-1, which the language does not define
abbrev pub shifted : ℕ → ℕ → ℕ
shifted undefined zero = undefined
shifted undefined (suc k) = 2 ^ k

-- m_mask, which nothing changes after the constructor
unfoldable pub mask_of : ℕ → Level → ℕ
mask_of undefined l = shifted undefined (shift_of l)

-- m_enable, and the name of the log that m_pLog points to
pub record RtwTrace : Type 0 where
  pub enable : Bool
  pub p_log : Option Bytes

-- The trace objects, and the factory: m_map, m_max_log_size and m_mask.
pub record Logging : Type 0 where
  pub trace_of : Level → RtwTrace
  pub log_map : List (Bytes × RtwLog)
  pub max_log_size : ℕ
  pub factory_mask : ℕ

-- After the constructors.
unfoldable pub new_logging : ℕ → Logging
new_logging undefined = record {
  trace_of = λ l. record { enable = mask_of undefined l == 0; p_log = none };
  log_map = [];
  max_log_size = 0;
  factory_mask = 0;
}

-- m_map[&name]
unfoldable pub lookup : Bytes → List (Bytes × RtwLog) → Option RtwLog
lookup name [] = none
lookup name ((k, v) ∷ m) = if bytes_eq name k then some v else lookup name m

-- GetLog, with the log that the constructor opens for a name and a size
unfoldable pub get_log : (Bytes → ℕ → RtwLog) → Bytes → Logging → Logging
get_log opened name s = elim (lookup name s.log_map) [
  | none ↦ record s { log_map = s.log_map ++ (name, opened name s.max_log_size) ∷ [] }
  | some v ↦ s
]

-- The result of CheckWithMask
unfoldable pub check_with_mask : ℕ → ℕ → Level → Bool
check_with_mask undefined mask l = bit_and mask (mask_of undefined l) == mask_of undefined l

abbrev pub set_trace : Level → RtwTrace → (Level → RtwTrace) → Level → RtwTrace
set_trace l t f k = if number k == number l then t else f k

-- INIT_LOG
abbrev pub init_size_and_mask : ℕ → ℕ → Logging → Logging
init_size_and_mask size mask s = record s { max_log_size = size; factory_mask = mask }

abbrev with_trace : Level → RtwTrace → Logging → Logging
with_trace l t s = record s { trace_of = set_trace l t s.trace_of }

-- INIT_TRACE
unfoldable pub init_trace : ℕ → (Bytes → ℕ → RtwLog) → Level → Bytes → Logging → Logging
init_trace undefined opened l name s =
    let on : RtwTrace = record { enable = true; p_log = some name } in
    let off : RtwTrace = record { enable = false; p_log = (s.trace_of l).p_log } in
    if check_with_mask undefined s.factory_mask l
    then with_trace l on (get_log opened name s)
    else with_trace l off s

unfoldable pub init_traces : ℕ → (Bytes → ℕ → RtwLog) → List (Level × Bytes) → Logging → Logging
init_traces undefined opened [] s = s
init_traces undefined opened ((l, name) ∷ ls) s =
    init_traces undefined opened ls (init_trace undefined opened l name s)

-- The log of WriteLog, in the map
unfoldable pub write_to : Bytes → Bytes → List (Bytes × RtwLog) → List (Bytes × RtwLog)
write_to name message [] = []
write_to name message ((k, v) ∷ m) =
    let rest = write_to name message m in
    if bytes_eq name k then (k, log message v) ∷ m else (k, v) ∷ rest

-- operator << on a trace
abbrev pub put : Option Bytes → Bytes → Logging → Logging
put none message s = s
put (some name) message s = record s { log_map = write_to name message s.log_map }

-- TRACE_* for a message with its prefix
unfoldable pub trace_message : Level → Bytes → Logging → Logging
trace_message l message s = let t = s.trace_of l in if t.enable then put t.p_log message s else s

unfoldable pub trace_messages : List (Level × Bytes) → Logging → Logging
trace_messages [] s = s
trace_messages ((l, message) ∷ ms) s = trace_messages ms (trace_message l message s)

-- The INIT_TRACE of InitLog, with the names of the log of commands and of the log of the process.
abbrev pub init_list : Bytes → Bytes → List (Level × Bytes)
init_list command_log process_log =
    (command, command_log)
    ∷ (error, process_log)
    ∷ (warning, process_log)
    ∷ (debug, process_log)
    ∷ (info, process_log)
    ∷ (trace, process_log)
    ∷ (data_, process_log)
    ∷ []

-- WApp::InitLog
unfoldable pub init_log : ℕ → (Bytes → ℕ → RtwLog) → ℕ → ℕ → Bytes → Bytes → Logging → Logging
init_log undefined opened size mask command_log process_log s =
    init_traces undefined opened (init_list command_log process_log)
      (init_size_and_mask size mask s)

-- The levels that common_sh_log.cxx knows.
unfoldable pub level_of : Bytes → Option Level
level_of s =
    if bytes_eq s (codes "INFO")
    then some info
    else if bytes_eq s (codes "ERROR")
    then some error
    else if bytes_eq s (codes "DEBUG")
    then some debug
    else if bytes_eq s (codes "TRACE")
    then some trace
    else if bytes_eq s (codes "WARNING")
    then some warning
    else none

abbrev pub sh_line : Bytes → Bytes → Bytes → Bytes → Bytes → Bytes
sh_line now level message pid shell =
    now
    ++ (codes "["
        ++ (pid
            ++ (codes "]["
                ++ (pid
                    ++ (codes "]<"
                        ++ (level ++ (codes ">" ++ (shell ++ (codes ":" ++ message)))))))))

abbrev pub sh_init_list : Bytes → List (Level × Bytes)
sh_init_list file_name =
    (info, file_name)
    ∷ (error, file_name)
    ∷ (debug, file_name)
    ∷ (trace, file_name)
    ∷ (warning, file_name)
    ∷ []

abbrev pub sh_trace : Option Level → Bytes → Logging → Logging
sh_trace none line s = s
sh_trace (some l) line s = trace_message l line s

-- main of common_sh_log.cxx: the exit code and the logs, for the arguments behind the first one.
unfoldable pub sh_main :
    ℕ → (Bytes → ℕ → RtwLog) → (Bytes → ℕ) → Bytes → List Bytes → Logging → ℕ × Logging
sh_main undefined opened atoi now (size ∷ mask ∷ level ∷ file_name ∷ message ∷ pid ∷ shell ∷ []) s =
    let s' =
      init_traces undefined opened (sh_init_list file_name)
        (init_size_and_mask (atoi size) (atoi mask) s) in
    (0, sh_trace (level_of level) (sh_line now level message pid shell) s')
sh_main undefined opened atoi now _ s = (1, s)
