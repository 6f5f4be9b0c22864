-- ===== src/Receive/App/Checked.antt =====
-- What the receiving process has checked of its configuration.
use others.Base.{
  ◌≤◌, is_empty, ◌∷◌, ◌≡◌, ◌≢◌, arith, refl, Bool, true, false, List, [], subst, ap, Option-cases,
  Option, none, some, Bytes, codes, Bool-cases, inl, inr,
}
use others.Base.Int.{ℤ, pos, eq_ℤ, eq_of_parts}
use others.Common.Conf.{open_conf, read}
use others.Receive.App.{
  ◌>>=◌, all_digits, is_number, check_item, read_conf_item, LogItems, read_log_items, log_section,
  CommandItems, command_section, read_command_items, SocketItems, socket_section, buff_section,
  buff_size_of, socket_recv_buff_size_default, read_socket_items, CstItems, db_section,
  path_section, retry_section, read_cst_items, AppConf, read_conf, init,
}

-- A text of decimal digits.
pub IsDigits : Bytes → Type 0
IsDigits [] = Unit {0}
IsDigits (c ∷ s) = (48 ≤ c) × (c ≤ 57) × IsDigits s

all_digits-IsDigits : (s : Bytes) → all_digits s ≡ true → IsDigits s
unfolding all_digits IsDigits
all_digits-IsDigits [] h = tt
all_digits-IsDigits (c ∷ s) h = (ground arith, ground arith, all_digits-IsDigits s (ground arith))

is_number-IsDigits : (s : Bytes) → is_number s ≡ true → IsDigits s
unfolding is_number
is_number-IsDigits s h = all_digits-IsDigits s (ground arith)

is_empty-IsDigits : (s : Bytes) → is_empty s ≡ true → IsDigits s
is_empty-IsDigits [] h = unfold IsDigits in tt
is_empty-IsDigits (c ∷ s) h = cc

-- An item that may be used: one that is not set is optional, and one that is set is a number where
-- it should be.
pub record IsItem (number optional : Bool) (value : Bytes) : Type 0 where
  pub set : optional ≡ false → value ≢ []
  pub digits : number ≡ true → IsDigits value

zero_differs : (n : ℤ) → n ≡ pos 0 → eq_ℤ n (pos 0) ≢ false
zero_differs n e = rw e (λ x. ground arith)

buff_size_of_lem :
    (n z : ℤ) → z ≡ buff_size_of n → (n ≡ pos 0 → z ≡ pos 32768) × (n ≢ pos 0 → z ≡ n)
unfolding buff_size_of socket_recv_buff_size_default
buff_size_of_lem n z h = elim (Bool-cases (eq_ℤ n (pos 0))) [
  | inl t ↦ (λ e. rw t at h, λ ne. absurd (ne (eq_of_parts n (pos 0) (ground arith))))
  | inr f ↦ (λ e. absurd (zero_differs n e f), λ ne. rw f at h)
]

check_item-IsItem :
    (value : Bytes) (number optional : Bool) {v : Bytes}
    → check_item value number optional ≡ some v
    → (v ≡ value) × IsItem number optional value
unfolding check_item
check_item-IsItem value number optional g =
    let digits = is_number-IsDigits value in
    let empty = is_empty-IsDigits value in
    elim (Bool-cases (is_number value)) [
      | inl t ↦ (let d = digits t in ground arith)
      | inr f ↦ ground (arith, empty)
    ]

IsItem-some :
    {B : Type 0} (m : List (Bytes × Bytes)) (s n : Bytes) (number optional : Bool)
    (f : Bytes → Option B) {b : B}
    → (read_conf_item m s n number optional >>= f) ≡ some b
    → (v : Bytes) × ((v ≡ read m s n) × IsItem number optional (read m s n)) × (f v ≡ some b)
unfolding read_conf_item
IsItem-some m s n number optional f g =
    elim (Option-cases (check_item (read m s n) number optional)) [
      | inl bad ↦ cc (rw (bad, ◌>>=◌) at g)
      | inr (v, found) ↦
          (v, check_item-IsItem (read m s n) number optional found, rw (found, ◌>>=◌) at g)
    ]

-- A field that holds the text of an item that has to be set.
abbrev pub TextIs : List (Bytes × Bytes) → Bytes → Bytes → Bytes → Type 0
TextIs m s n v = (v ≡ read m s n) × IsItem false false (read m s n)

-- A field that holds the digits of an item that has to be set.
abbrev pub DigitsAre : List (Bytes × Bytes) → Bytes → Bytes → Bytes → Type 0
DigitsAre m s n v = (v ≡ read m s n) × IsItem true false (read m s n)

-- A field that holds the number of an item.
abbrev pub NumberIs : (Bytes → ℤ) → List (Bytes × Bytes) → Bytes → Bytes → Bool → ℤ → Type 0
NumberIs atoi m s n optional z = (z ≡ atoi (read m s n)) × IsItem true optional (read m s n)

-- The size of a buffer, with its default in place of 0.
abbrev pub SizeIs : (Bytes → ℤ) → List (Bytes × Bytes) → Bytes → Bytes → ℤ → Type 0
SizeIs atoi m s n z =
    ((atoi (read m s n) ≡ pos 0 → z ≡ pos 32768)
      × (atoi (read m s n) ≢ pos 0 → z ≡ atoi (read m s n)))
    × IsItem true true (read m s n)

pub record LogsAre (atoi : Bytes → ℤ) (m : List (Bytes × Bytes)) (c : LogItems) : Type 0 where
  pub process_log_is : TextIs m log_section (codes "RTWORK_RECV_PROCESS_LOG_NAME") c.process_log
  pub command_log_is : TextIs m log_section (codes "RTWORK_RECV_COMMAND_LOG_NAME") c.command_log
  pub trace_mask_is :
      NumberIs atoi m log_section (codes "RTWORK_RECV_PROCESS_TRACE_MASK") true c.trace_mask
  pub log_max_size_is :
      NumberIs atoi m log_section (codes "RTWORK_RECV_LOG_MAX_SIZE") false c.log_max_size

read_log_items-LogsAre :
    (atoi : Bytes → ℤ) (m : List (Bytes × Bytes)) (c : LogItems)
    → read_log_items atoi m ≡ some c
    → LogsAre atoi m c
unfolding read_log_items
read_log_items-LogsAre atoi m c g0 =
    let (t0, e0, g1) =
      IsItem-some m log_section (codes "RTWORK_RECV_PROCESS_LOG_NAME") false false _ g0 in
    let (t1, e1, g2) =
      IsItem-some m log_section (codes "RTWORK_RECV_COMMAND_LOG_NAME") false false _ g1 in
    let (t2, e2, g3) =
      IsItem-some m log_section (codes "RTWORK_RECV_PROCESS_TRACE_MASK") true true _ g2 in
    let (t3, e3, g4) =
      IsItem-some m log_section (codes "RTWORK_RECV_LOG_MAX_SIZE") true false _ g3 in
    subst (λ o. elim o [ none ↦ Unit | some z ↦ LogsAre atoi m z ]) g4
      (record {
        process_log_is = e0;
        command_log_is = e1;
        trace_mask_is = (ap atoi e2.0, e2.1);
        log_max_size_is = (ap atoi e3.0, e3.1);
      })

pub record CommandsAre (m : List (Bytes × Bytes)) (c : CommandItems) : Type 0 where
  pub osi_entity_is : TextIs m command_section (codes "RTWORK_RECV_NOTIFY_OSI_ENTITY") c.osi_entity
  pub oc_name_is : TextIs m command_section (codes "RTWORK_RECV_NOTIFY_OC_NAME") c.oc_name
  pub hc_ao_is : DigitsAre m command_section (codes "RTWORK_RECV_NOTIFY_HC_COUNT_AO_ID") c.hc_ao
  pub work_ao_is :
      DigitsAre m command_section (codes "RTWORK_RECV_NOTIFY_WORK_COUNT_AO_ID") c.work_ao
  pub error_ao_is :
      DigitsAre m command_section (codes "RTWORK_RECV_NOTIFY_ERROR_COUNT_AO_ID") c.error_ao

read_command_items-CommandsAre :
    (m : List (Bytes × Bytes)) (c : CommandItems) → read_command_items m ≡ some c → CommandsAre m c
unfolding read_command_items
read_command_items-CommandsAre m c g0 =
    let (t0, e0, g1) =
      IsItem-some m command_section (codes "RTWORK_RECV_NOTIFY_OSI_ENTITY") false false _ g0 in
    let (t1, e1, g2) =
      IsItem-some m command_section (codes "RTWORK_RECV_NOTIFY_OC_NAME") false false _ g1 in
    let (t2, e2, g3) =
      IsItem-some m command_section (codes "RTWORK_RECV_NOTIFY_HC_COUNT_AO_ID") true false _ g2 in
    let (t3, e3, g4) =
      IsItem-some m command_section (codes "RTWORK_RECV_NOTIFY_WORK_COUNT_AO_ID") true false _ g3 in
    let (t4, e4, g5) =
      IsItem-some m command_section (codes "RTWORK_RECV_NOTIFY_ERROR_COUNT_AO_ID") true false _
        g4 in
    subst (λ o. elim o [ none ↦ Unit | some z ↦ CommandsAre m z ]) g5
      (record {
        osi_entity_is = e0;
        oc_name_is = e1;
        hc_ao_is = e2;
        work_ao_is = e3;
        error_ao_is = e4;
      })

pub record SocketsAre (atoi : Bytes → ℤ) (m : List (Bytes × Bytes)) (c : SocketItems) : Type 0 where
  pub socket_port_is :
      NumberIs atoi m socket_section (codes "RTWORK_RECV_LISTEN_PORT") false c.socket_port
  pub recv_socketbuff_size_is :
      SizeIs atoi m socket_section (codes "RTWORK_SOCKET_RECV_BUFF_SIZE") c.recv_socketbuff_size
  pub hc_timeout_is :
      NumberIs atoi m socket_section (codes "RTWORK_RECV_HC_TIMEOUT") true c.hc_timeout
  pub work_buff_size_is :
      NumberIs atoi m buff_section (codes "RTWORK_WRITE_DB_BUFF_SIZE") true c.work_buff_size

read_socket_items-SocketsAre :
    (atoi : Bytes → ℤ) (m : List (Bytes × Bytes)) (c : SocketItems)
    → read_socket_items atoi m ≡ some c
    → SocketsAre atoi m c
unfolding read_socket_items
read_socket_items-SocketsAre atoi m c g0 =
    let (t0, e0, g1) =
      IsItem-some m socket_section (codes "RTWORK_RECV_LISTEN_PORT") true false _ g0 in
    let (t1, e1, g2) =
      IsItem-some m socket_section (codes "RTWORK_SOCKET_RECV_BUFF_SIZE") true true _ g1 in
    let (t2, e2, g3) =
      IsItem-some m socket_section (codes "RTWORK_RECV_HC_TIMEOUT") true true _ g2 in
    let (t3, e3, g4) =
      IsItem-some m buff_section (codes "RTWORK_WRITE_DB_BUFF_SIZE") true true _ g3 in
    subst (λ o. elim o [ none ↦ Unit | some z ↦ SocketsAre atoi m z ]) g4
      (record {
        socket_port_is = (ap atoi e0.0, e0.1);
        recv_socketbuff_size_is =
            (buff_size_of_lem _ _ (ap (λ t. buff_size_of (atoi t)) e1.0), e1.1);
        hc_timeout_is = (ap atoi e2.0, e2.1);
        work_buff_size_is = (ap atoi e3.0, e3.1);
      })

pub record CstAre (atoi : Bytes → ℤ) (m : List (Bytes × Bytes)) (c : CstItems) : Type 0 where
  pub oracle_user_is : TextIs m db_section (codes "RTWORK_ORACLE_USER") c.oracle_user
  pub oracle_psw_is : TextIs m db_section (codes "RTWORK_ORACLE_PSW") c.oracle_psw
  pub oracle_sid_is : TextIs m db_section (codes "RTWORK_ORACLE_SID") c.oracle_sid
  pub recv_netype_conf_file_is :
      TextIs m path_section (codes "RTWORK_RECV_NETYPE_CONF_FILE") c.recv_netype_conf_file
  pub recv_result_tmp_dir_is :
      TextIs m path_section (codes "RTWORK_RECV_RESULT_TMP_DIR") c.recv_result_tmp_dir
  pub recv_result_dir_is : TextIs m path_section (codes "RTWORK_RECV_RESULT_DIR") c.recv_result_dir
  pub recv_retry_interval_is :
      NumberIs atoi m retry_section (codes "RTWORK_RECV_RETRY_INTERVAL") false c.recv_retry_interval
  pub db_retry_number_is :
      NumberIs atoi m retry_section (codes "RTWORK_DB_RETRY_NUMBER") false c.db_retry_number

read_cst_items-CstAre :
    (atoi : Bytes → ℤ) (m : List (Bytes × Bytes)) (c : CstItems)
    → read_cst_items atoi m ≡ some c
    → CstAre atoi m c
unfolding read_cst_items
read_cst_items-CstAre atoi m c g0 =
    let (t0, e0, g1) = IsItem-some m db_section (codes "RTWORK_ORACLE_USER") false false _ g0 in
    let (t1, e1, g2) = IsItem-some m db_section (codes "RTWORK_ORACLE_PSW") false false _ g1 in
    let (t2, e2, g3) = IsItem-some m db_section (codes "RTWORK_ORACLE_SID") false false _ g2 in
    let (t3, e3, g4) =
      IsItem-some m path_section (codes "RTWORK_RECV_NETYPE_CONF_FILE") false false _ g3 in
    let (t4, e4, g5) =
      IsItem-some m path_section (codes "RTWORK_RECV_RESULT_TMP_DIR") false false _ g4 in
    let (t5, e5, g6) =
      IsItem-some m path_section (codes "RTWORK_RECV_RESULT_DIR") false false _ g5 in
    let (t6, e6, g7) =
      IsItem-some m retry_section (codes "RTWORK_RECV_RETRY_INTERVAL") true false _ g6 in
    let (t7, e7, g8) =
      IsItem-some m retry_section (codes "RTWORK_DB_RETRY_NUMBER") true false _ g7 in
    subst (λ o. elim o [ none ↦ Unit | some z ↦ CstAre atoi m z ]) g8
      (record {
        oracle_user_is = e0;
        oracle_psw_is = e1;
        oracle_sid_is = e2;
        recv_netype_conf_file_is = e3;
        recv_result_tmp_dir_is = e4;
        recv_result_dir_is = e5;
        recv_retry_interval_is = (ap atoi e6.0, e6.1);
        db_retry_number_is = (ap atoi e7.0, e7.1);
      })

-- A configuration that the receiving process starts with.
pub record IsChecked (atoi : Bytes → ℤ) (m : List (Bytes × Bytes)) (c : AppConf) : Type 0 where
  pub logs_are : LogsAre atoi m c.logs
  pub commands_are : CommandsAre m c.commands
  pub sockets_are : SocketsAre atoi m c.sockets
  pub cst_are : CstAre atoi m c.cst

bind_some :
    {A B : Type 0} (o : Option A) (f : A → Option B) {b : B}
    → (o >>= f) ≡ some b
    → (a : A) × (o ≡ some a) × (f a ≡ some b)
bind_some none f g = cc
bind_some (some a) f g = (a, refl, g)

read_conf-IsChecked :
    (atoi : Bytes → ℤ) (m : List (Bytes × Bytes)) (c : AppConf)
    → read_conf atoi m ≡ some c
    → IsChecked atoi m c
unfolding read_conf
read_conf-IsChecked atoi m c g0 =
    let (logs, l, g1) = bind_some (read_log_items atoi m) _ g0 in
    let (commands, k, g2) = bind_some (read_command_items m) _ g1 in
    let (sockets, s, g3) = bind_some (read_socket_items atoi m) _ g2 in
    let (cst, t, g4) = bind_some (read_cst_items atoi m) _ g3 in
    subst (λ o. elim o [ none ↦ Unit | some z ↦ IsChecked atoi m z ]) g4
      (record {
        logs_are = read_log_items-LogsAre atoi m logs l;
        commands_are = read_command_items-CommandsAre m commands k;
        sockets_are = read_socket_items-SocketsAre atoi m sockets s;
        cst_are = read_cst_items-CstAre atoi m cst t;
      })

-- Where the receiving process starts, its configuration could be opened, each field holds the item
-- of its name, every item that is not optional is set, and every item that should be a number and
-- is set consists of digits; the size of the receive buffer is its default in place of 0.
pub init-IsChecked :
    (atoi : Bytes → ℤ) (conf : Option Bytes) (c : AppConf)
    → init atoi conf ≡ some c
    → ((open_conf conf []).0 ≡ true) × IsChecked atoi (open_conf conf []).1 c
unfolding init
init-IsChecked atoi conf c g = elim (Bool-cases (open_conf conf []).0) [
  | inl opened ↦ (opened, read_conf-IsChecked atoi _ c (rw (opened, init) at g))
  | inr shut ↦ cc (rw (shut, init) at g)
]
