-- ===== src/Receive/App.antt =====
-- The configuration of the receiving process (receive/WApp.cxx: Init, ReadConf, ReadConfItem).
-- atoi() is an argument, and the expression ^[0-9]+$ matches the texts of at least one digit.
pub mod Checked
use others.Base.{
  ℕ, Bool, true, false, not, ◌&&◌, if◌then◌else◌, List, [], ◌∷◌, Option, none, some, Bytes, codes,
  is_empty, leb,
}
use others.Base.Int.{ℤ, pos, eq_ℤ}
use others.Common.Conf.{open_conf, read}

abbrev pub is_digit : ℕ → Bool
is_digit c = leb 48 c && leb c 57

unfoldable pub all_digits : Bytes → Bool
all_digits [] = true
all_digits (c ∷ s) = is_digit c && all_digits s

-- The test on a number, for a text that is not empty.
unfoldable pub is_number : Bytes → Bool
is_number s = not (is_empty s) && all_digits s

-- ReadConfItem after the reading; `none` is exit(-1).
unfoldable pub check_item : Bytes → Bool → Bool → Option Bytes
check_item value number optional =
    if is_empty value
    then (if not optional then none else some value)
    else if number && not (is_number value)
    then none
    else some value

unfoldable pub read_conf_item : List (Bytes × Bytes) → Bytes → Bytes → Bool → Bool → Option Bytes
read_conf_item m section name number optional = check_item (read m section name) number optional

infixl 5 ◌>>=◌
abbrev pub ◌>>=◌ : {A B : Type 0} → Option A → (A → Option B) → Option B
none >>= f = none
some a >>= f = f a

-- The items of the section "log", read before the log is set up.
pub record LogItems : Type 0 where
  pub process_log : Bytes
  pub command_log : Bytes
  pub trace_mask : ℤ
  pub log_max_size : ℤ

abbrev pub log_section : Bytes
log_section = codes "log"

unfoldable pub read_log_items : (Bytes → ℤ) → List (Bytes × Bytes) → Option LogItems
read_log_items atoi m = do
  process ← read_conf_item m log_section (codes "RTWORK_RECV_PROCESS_LOG_NAME") false false
  command ← read_conf_item m log_section (codes "RTWORK_RECV_COMMAND_LOG_NAME") false false
  mask ← read_conf_item m log_section (codes "RTWORK_RECV_PROCESS_TRACE_MASK") true true
  size ← read_conf_item m log_section (codes "RTWORK_RECV_LOG_MAX_SIZE") true false
  some (record {
    process_log = process;
    command_log = command;
    trace_mask = atoi mask;
    log_max_size = atoi size;
  })

-- The items of the section "command".
pub record CommandItems : Type 0 where
  pub osi_entity : Bytes
  pub oc_name : Bytes
  pub hc_ao : Bytes
  pub work_ao : Bytes
  pub error_ao : Bytes

abbrev pub command_section : Bytes
command_section = codes "command"

unfoldable pub read_command_items : List (Bytes × Bytes) → Option CommandItems
read_command_items m = do
  osi ← read_conf_item m command_section (codes "RTWORK_RECV_NOTIFY_OSI_ENTITY") false false
  oc ← read_conf_item m command_section (codes "RTWORK_RECV_NOTIFY_OC_NAME") false false
  hc ← read_conf_item m command_section (codes "RTWORK_RECV_NOTIFY_HC_COUNT_AO_ID") true false
  work ← read_conf_item m command_section (codes "RTWORK_RECV_NOTIFY_WORK_COUNT_AO_ID") true false
  error ← read_conf_item m command_section (codes "RTWORK_RECV_NOTIFY_ERROR_COUNT_AO_ID") true false
  some (record { osi_entity = osi; oc_name = oc; hc_ao = hc; work_ao = work; error_ao = error })

-- The items of the sections "socket" and "buff".
pub record SocketItems : Type 0 where
  pub socket_port : ℤ
  pub recv_socketbuff_size : ℤ
  pub hc_timeout : ℤ
  pub work_buff_size : ℤ

-- SOCKET_RECV_BUFF_SIZE_DEFAULT
unfoldable pub socket_recv_buff_size_default : ℤ
socket_recv_buff_size_default = pos 32768

abbrev pub socket_section : Bytes
socket_section = codes "socket"

abbrev pub buff_section : Bytes
buff_section = codes "buff"

unfoldable pub buff_size_of : ℤ → ℤ
buff_size_of n = if eq_ℤ n (pos 0) then socket_recv_buff_size_default else n

unfoldable pub read_socket_items : (Bytes → ℤ) → List (Bytes × Bytes) → Option SocketItems
read_socket_items atoi m = do
  port ← read_conf_item m socket_section (codes "RTWORK_RECV_LISTEN_PORT") true false
  size ← read_conf_item m socket_section (codes "RTWORK_SOCKET_RECV_BUFF_SIZE") true true
  timeout ← read_conf_item m socket_section (codes "RTWORK_RECV_HC_TIMEOUT") true true
  buff ← read_conf_item m buff_section (codes "RTWORK_WRITE_DB_BUFF_SIZE") true true
  some (record {
    socket_port = atoi port;
    recv_socketbuff_size = buff_size_of (atoi size);
    hc_timeout = atoi timeout;
    work_buff_size = atoi buff;
  })

-- The items of the sections "db", "path" and "retry", for CstConf.
pub record CstItems : Type 0 where
  pub oracle_user : Bytes
  pub oracle_psw : Bytes
  pub oracle_sid : Bytes
  pub recv_netype_conf_file : Bytes
  pub recv_result_tmp_dir : Bytes
  pub recv_result_dir : Bytes
  pub recv_retry_interval : ℤ
  pub db_retry_number : ℤ

abbrev pub db_section : Bytes
db_section = codes "db"

abbrev pub path_section : Bytes
path_section = codes "path"

abbrev pub retry_section : Bytes
retry_section = codes "retry"

unfoldable pub read_cst_items : (Bytes → ℤ) → List (Bytes × Bytes) → Option CstItems
read_cst_items atoi m = do
  user ← read_conf_item m db_section (codes "RTWORK_ORACLE_USER") false false
  psw ← read_conf_item m db_section (codes "RTWORK_ORACLE_PSW") false false
  sid ← read_conf_item m db_section (codes "RTWORK_ORACLE_SID") false false
  netype ← read_conf_item m path_section (codes "RTWORK_RECV_NETYPE_CONF_FILE") false false
  tmp_dir ← read_conf_item m path_section (codes "RTWORK_RECV_RESULT_TMP_DIR") false false
  result_dir ← read_conf_item m path_section (codes "RTWORK_RECV_RESULT_DIR") false false
  interval ← read_conf_item m retry_section (codes "RTWORK_RECV_RETRY_INTERVAL") true false
  number ← read_conf_item m retry_section (codes "RTWORK_DB_RETRY_NUMBER") true false
  some (record {
    oracle_user = user;
    oracle_psw = psw;
    oracle_sid = sid;
    recv_netype_conf_file = netype;
    recv_result_tmp_dir = tmp_dir;
    recv_result_dir = result_dir;
    recv_retry_interval = atoi interval;
    db_retry_number = atoi number;
  })

pub record AppConf : Type 0 where
  pub logs : LogItems
  pub commands : CommandItems
  pub sockets : SocketItems
  pub cst : CstItems

-- WApp::ReadConf
unfoldable pub read_conf : (Bytes → ℤ) → List (Bytes × Bytes) → Option AppConf
read_conf atoi m = do
  logs ← read_log_items atoi m
  commands ← read_command_items m
  sockets ← read_socket_items atoi m
  cst ← read_cst_items atoi m
  some (record { logs = logs; commands = commands; sockets = sockets; cst = cst })

-- WApp::Init, of the configuration file; `none` is exit(-1).
unfoldable pub init : (Bytes → ℤ) → Option Bytes → Option AppConf
init atoi conf =
    let (opened, m) = open_conf conf [] in if not opened then none else read_conf atoi m
