-- ===== src/Receive/Node.antt =====
-- A construction record made into a database record: receive/CstNode.cxx, receive/CstUtil.cxx and
-- receive/CstRecord.cxx. What the C++ streams, atoi, mktime and the database function GET_SECTORNO
-- compute is an argument.
pub mod Shape
pub mod Document
use others.Base.{
  ℕ, suc, zero, ◌+◌, ◌-◌, ◌≡◌, Bool, true, false, not, ◌&&◌, ◌||◌, ◌==◌, if◌then◌else◌, List, [],
  ◌∷◌, ◌++◌, length, Option, none, some, String, Bytes, bytes_eq, codes, is_empty, replicate, ltb,
  leb, substr,
}
use others.Base.Int.{ℤ, pos, ◌-ℤ◌, ltb_ℤ}
use others.Common.Conf.{read}
use others.Receive.Coder.{check_chars}
use others.Receive.Db.{RealworkRecord, Filled, filled, refused, fill_lost, DbWrite, add_xml_record}

infixl 5 ◌>>=◌
abbrev ◌>>=◌ : {A B : Type 0} → Option A → (A → Option B) → Option B
o >>= f = elim o [ none ↦ none | some a ↦ f a ]

-- s.substr(i, n): `none` is the exception out_of_range.
unfoldable pub substr_at : Bytes → ℕ → ℕ → Option Bytes
substr_at s i n = if leb i (length s) then some (substr s i n) else none

-- ChangeTimeFormat; `none` is the exception of a date that is too short.
unfoldable pub change_time_format : Bytes → Option Bytes
change_time_format [] = some []
change_time_format (c ∷ cs) = do
  let t = c ∷ cs
  year ← substr_at t 0 4
  mon ← substr_at t 4 2
  day ← substr_at t 6 2
  hour ← substr_at t 8 2
  min ← substr_at t 10 2
  sec ← substr_at t 12 2
  some (
      year
      ++ codes "/"
      ++ mon
      ++ codes "/"
      ++ day
      ++ codes " "
      ++ hour
      ++ codes ":"
      ++ min
      ++ codes ":"
      ++ sec)

-- isspace
abbrev pub is_space : ℕ → Bool
is_space c = c == 32 || leb 9 c && leb c 13

-- What `ss >> s` reads: the first word.
unfoldable pub take_word : Bytes → Bytes
take_word [] = []
take_word (c ∷ cs) = let rest = take_word cs in if is_space c then [] else c ∷ rest

unfoldable pub first_word : Bytes → Bytes
first_word [] = []
first_word (c ∷ cs) = let rest = first_word cs in if is_space c then rest else take_word (c ∷ cs)

pub record CstNode : Type 0 where
  pub node_id : Bytes
  pub ne_type : Bytes
  pub region_code : Bytes
  pub mms : Bytes
  pub rnc : Bytes
  pub bts : Bytes
  pub serial : Bytes

-- Why the constructor throws a NodeParseException, or the node.
pub data Parsed : Type 0 where
  neid_length : Parsed
  neid_zero : Parsed
  undefined_netype : Bytes → Parsed
  node : CstNode → Parsed

-- How much of the additional id belongs to a network element of this type.
pub data Level : Type 0 where
  below_mms : Level
  below_rnc : Level
  below_bts : Level
  plain : Level

abbrev pub is_type : Bytes → String → Bool
is_type ne_type s = bytes_eq ne_type (codes s)

unfoldable pub level : Bytes → Level
level t =
    if is_type t "0002" || is_type t "0003" || is_type t "000b" || is_type t "000c"
    then below_mms
    else if is_type t "0004" || is_type t "000d" || is_type t "000e"
    then below_rnc
    else if is_type t "0005" || is_type t "0006" || is_type t "000a" || is_type t "0010"
    then below_bts
    else plain

abbrev pub sub_length : Level → ℕ
sub_length below_mms = 4
sub_length below_rnc = 6
sub_length below_bts = 8
sub_length plain = 0

abbrev pub conf_or_zero : Bytes → Bytes
conf_or_zero v = if is_empty v then codes "0000" else v

-- GetConfigNeType, on the map of the configuration file
unfoldable pub get_config_ne_type : List (Bytes × Bytes) → Bytes → Bytes
get_config_ne_type conf t = conf_or_zero (read conf (codes "NETYPE") t)

-- m_nodeId
unfoldable pub make_node_id : Bytes → Bytes → Bytes → Bytes → Bytes
make_node_id region ne_type serial_no sub =
    first_word (codes "01000201" ++ (region ++ (codes "0000" ++ (ne_type ++ (serial_no ++ sub)))))

-- GetCstNodeId; `none` is the exception of substr
unfoldable pub get_cst_node_id : CstNode → Option Bytes
get_cst_node_id n =
    if is_type n.ne_type "0006" || is_type n.ne_type "0010"
    then (do
      front ← substr_at n.node_id 0 16
      last ← substr_at n.node_id 34 2
      mid ← substr_at n.node_id 28 6
      some (((front ++ codes "0004") ++ (codes "000000" ++ last)) ++ mid))
    else some n.node_id

unfoldable pub get_cst_ne_type : CstNode → Bytes
get_cst_ne_type n =
    let t = n.ne_type in
    if is_type t "0004" || is_type t "0006" || is_type t "000d" || is_type t "0010"
    then codes "9904"
    else if is_type t "000a"
    then codes "9905"
    else t

-- How GetSectorNo ends: a code with the sector, an otl_exception, a DBConnectException.
pub data Sector : Type 0 where
  sector : Bool → Bytes → Sector
  sector_sql_error : Sector
  sector_lost : Sector

-- GetCstSerial, given the answer of GetSectorNo (true: error code 0)
unfoldable pub get_cst_serial : Sector → CstNode → Sector
get_cst_serial answer n =
    if is_type n.ne_type "000a"
    then answer
    else if is_type n.ne_type "0006" || is_type n.ne_type "0010"
    then sector true n.bts
    else sector true n.serial

unfoldable pub get_cst_bts : CstNode → Bytes
get_cst_bts n = if is_type n.ne_type "0004" || is_type n.ne_type "000d" then n.serial else n.bts

-- region = "0" + region until it has four bytes
unfoldable pub pad_region : Bytes → Bytes
pad_region r = replicate (4 - length r) 48 ++ r

-- The fields of WRecord that CstChildRecord reads.
pub record WRecord : Type 0 where
  pub cmngno : Bytes
  pub constnm : Bytes
  pub equip_count : Bytes
  pub kono : Bytes
  pub buil_nm : Bytes
  pub kaitei_nm : Bytes
  pub sdate : Bytes
  pub edate : Bytes
  pub jsdate : Bytes
  pub jedate : Bytes
  pub ope_kd_flg : Bytes
  pub neid : Bytes
  pub sub_neid : Bytes

pub record CstChildRecord : Type 0 where
  pub cst_no : Bytes
  pub schedule_name : Bytes
  pub m_cnt : Bytes
  pub cst_child_no : Bytes
  pub bld_name : Bytes
  pub m_type : Bytes
  pub s_date_pre : Bytes
  pub e_date_pre : Bytes
  pub s_date : Bytes
  pub e_date : Bytes
  pub input_res : Bytes
  pub ne_id : Bytes
  pub sub_ne_id : Bytes

-- CstChildRecord(WRecord*) for a record with content
unfoldable pub child_record : WRecord → CstChildRecord
child_record r = record {
  cst_no = r.cmngno;
  schedule_name = check_chars r.constnm;
  m_cnt = r.equip_count;
  cst_child_no = r.kono;
  bld_name = check_chars r.buil_nm;
  m_type = check_chars r.kaitei_nm;
  s_date_pre = r.sdate;
  e_date_pre = r.edate;
  s_date = r.jsdate;
  e_date = r.jedate;
  input_res = check_chars r.ope_kd_flg;
  ne_id = r.neid;
  sub_ne_id = r.sub_neid;
}

module _ (read_hex : Bytes → ℤ) (print_int : ℤ → Bytes) (number : Bytes → ℤ)
    (mktime : ℤ → ℤ → ℤ → ℤ → ℤ → ℤ → ℤ) (auto : Bytes) where
  -- HexStringToString: what the stream reads in base 16 and prints in base 10.
  unfoldable pub hex_string_to_string : Bytes → Bytes
  hex_string_to_string s = print_int (read_hex s)

  -- GetStringTime, on the fields of struct tm; `none` is the exception of substr.
  unfoldable pub get_string_time : Bytes → Option ℤ
  get_string_time t = do
    year ← substr_at t 0 4
    mon ← substr_at t 4 2
    day ← substr_at t 6 2
    hour ← substr_at t 8 2
    min ← substr_at t 10 2
    sec ← substr_at t 12 2
    some (
        mktime (number year -ℤ pos 1900) (number mon -ℤ pos 1) (number day) (number hour)
          (number min) (number sec))

  -- Whether the date `e` is a day or more after `s`.
  unfoldable pub is_day_passed : Bytes → Bytes → Option Bool
  is_day_passed e s = do
    later ← get_string_time e
    earlier ← get_string_time s
    some (not (ltb_ℤ (later -ℤ earlier) (pos 86400)))

  -- CstNode(neId, subNeId, record)
  unfoldable pub new_node : List (Bytes × Bytes) → Bytes → Bytes → Parsed
  new_node conf ne_id sub =
      let region = codes "00" ++ substr ne_id 0 2 in
      let ne_type = get_config_ne_type conf (substr ne_id 10 2) in
      let serial_no = codes "0000" ++ substr ne_id 12 4 in
      let l = level ne_type in
      let tail = substr sub 0 (sub_length l) in
      if not (length ne_id == 16) || not (length sub == 16)
      then neid_length
      else if bytes_eq ne_id (codes "0000000000000000") && bytes_eq sub (codes "0000000000000000")
      then neid_zero
      else if is_type ne_type "0000"
      then undefined_netype (substr ne_id 10 2)
      else node (record {
        node_id = make_node_id region ne_type serial_no tail;
        ne_type = ne_type;
        region_code = region;
        mms = elim l [ plain ↦ [] | _ ↦ hex_string_to_string (substr tail 0 4) ];
        rnc = elim l [ plain ↦ [] | below_mms ↦ [] | _ ↦ hex_string_to_string (substr tail 4 2) ];
        bts = elim l [ below_bts ↦ hex_string_to_string (substr tail 6 2) | _ ↦ [] ];
        serial = hex_string_to_string serial_no;
      })

  -- The tests of FillRealworkRecord before the node is made; `auto` is the literal for automatic
  -- input.
  unfoldable pub is_acceptable : CstChildRecord → Bool
  is_acceptable c =
      not (is_empty c.cst_no)
      && not (is_empty c.cst_child_no)
      && not (is_empty c.s_date && not (is_empty c.e_date))
      && (if bytes_eq c.input_res auto && not (is_empty c.s_date_pre) && not (is_empty c.e_date_pre)
          then elim (is_day_passed c.e_date_pre c.s_date_pre) [ some p ↦ not p | none ↦ false ]
          else true)

  unfoldable pub with_node : CstChildRecord → CstNode → Bytes → Bytes → RealworkRecord
  with_node c n node_id serialno = record {
    cst_no = c.cst_no;
    cst_child_no = c.cst_child_no;
    node_id = node_id;
    ne_type = get_cst_ne_type n;
    serialno = serialno;
    mms = n.mms;
    rnc = n.rnc;
    bts = get_cst_bts n;
    region_code = pad_region (hex_string_to_string n.region_code);
    schedule_name = c.schedule_name;
    s_date_pre = c.s_date_pre;
    e_date_pre = c.e_date_pre;
    s_date = c.s_date;
    e_date = c.e_date;
    m_cnt = number c.m_cnt;
    bld_name = c.bld_name;
    m_type = c.m_type;
    input_res = c.input_res;
  }

  -- FillRealworkRecord from the serial number on, and from the node on.
  unfoldable pub fill_serial : CstChildRecord → CstNode → Bytes → Sector → Filled
  fill_serial c n node_id (sector true s) = filled (with_node c n node_id s)
  fill_serial c n node_id (sector false s) = refused
  fill_serial c n node_id sector_sql_error = refused
  fill_serial c n node_id sector_lost = fill_lost

  unfoldable pub fill_from : Sector → CstChildRecord → CstNode → Option Bytes → Filled
  fill_from answer c n none = refused
  fill_from answer c n (some node_id) = fill_serial c n node_id (get_cst_serial answer n)

  unfoldable pub fill_parsed : Sector → CstChildRecord → Parsed → Filled
  fill_parsed answer c (node n) = fill_from answer c n (get_cst_node_id n)
  fill_parsed answer c p = refused

  unfoldable pub fill_realwork_record : List (Bytes × Bytes) → Sector → CstChildRecord → Filled
  fill_realwork_record conf answer c =
      if is_acceptable c then fill_parsed answer c (new_node conf c.ne_id c.sub_ne_id) else refused

  -- WRecord::Run for a record with content, once.
  unfoldable pub add_content : List (Bytes × Bytes) → Sector → WRecord → DbWrite → DbWrite × Bool
  add_content conf answer r w =
      add_xml_record number r.cmngno (fill_realwork_record conf answer (child_record r)) w

  -- The records of a document one after the other; one that is tried again stands there again.
  unfoldable pub add_contents : List (Bytes × Bytes) → List (Sector × WRecord) → DbWrite → DbWrite
  add_contents conf [] w = w
  add_contents conf (r ∷ rs) w = add_contents conf rs (add_content conf r.0 r.1 w).0
