-- ===== src/Receive/Sax.antt =====
-- The handler that makes records of a document (WSax2Handler in receive/WSaxXml.cxx). The parser is
-- code outside the repository: its calls come as a list of events.
pub mod Tags
use others.Base.{
  ℕ, ◌≡◌, Bool, true, false, not, ◌&&◌, if◌then◌else◌, List, [], ◌∷◌, ◌++◌, Option, none, some,
  Bytes, bytes_eq, codes, is_empty,
}
use others.Common.Conf.{assign, lookup}

abbrev pub Fields : Type 0
Fields = List (Bytes × Bytes)

-- m_curRecord.remove(name)
unfoldable pub remove : Bytes → Fields → Fields
remove name [] = []
remove name (f ∷ m) = let rest = remove name m in if bytes_eq f.0 name then rest else f ∷ rest

-- The elements that GET_HEAD_FROM_MAP and GET_RECORD_FROM_MAP name, in their order.
abbrev pub head_tags : List Bytes
head_tags =
    codes "messageType"
    ∷ codes "koujitCount"
    ∷ codes "regkubun"
    ∷ codes "cmngno"
    ∷ codes "constnm"
    ∷ codes "equipCount"
    ∷ []

abbrev pub record_tags : List Bytes
record_tags =
    codes "kono"
    ∷ codes "buil_nm"
    ∷ codes "kaitei_nm"
    ∷ codes "sdate"
    ∷ codes "edate"
    ∷ codes "jsdate"
    ∷ codes "jedate"
    ∷ codes "ope_kd_flg"
    ∷ codes "neid"
    ∷ codes "sub_neid"
    ∷ []

-- The macros: the values of the elements, or the first element that is missing.
pub data Got (A : Type 0) : Type 0 where
  missing : Bytes → Got A
  got : A → Got A

unfoldable pub get_heads : List Bytes → Fields → Got Fields
get_heads [] m = got []
get_heads (t ∷ ts) m = elim (lookup t m) [
  | none ↦ missing t
  | some v ↦ elim (get_heads ts m) [ missing u ↦ missing u | got vs ↦ got ((t, v) ∷ vs) ]
]

unfoldable pub get_records : List Bytes → Fields → Got (Fields × Fields)
get_records [] m = got ([], m)
get_records (t ∷ ts) m =
    let rest = get_records ts (remove t m) in
    elim (lookup t m) [
      | none ↦ missing t
      | some v ↦ elim rest [ missing u ↦ missing u | got r ↦ got ((t, v) ∷ r.0, r.1) ]
    ]

-- m_open, m_curElement, m_curValue, m_curRecord and m_tmpRecordList; a record is the values given
-- to its fields.
pub record Handler : Type 0 where
  pub opened : Bool
  pub cur_element : Bytes
  pub cur_value : Bytes
  pub cur_record : Fields
  pub tmp_record_list : List Fields

unfoldable pub start_element : Bytes → Handler → Handler
start_element name h = record h { opened = true; cur_element = name; cur_value = [] }

abbrev pub is_equip_info : Bytes → Bool
is_equip_info name = bytes_eq name (codes "equipInfo")

-- The record made of the values, into the list.
unfoldable pub insert_record : Handler → Got Fields → Got (Fields × Fields) → Got Handler
insert_record h (missing t) r = missing t
insert_record h (got heads) (missing t) = missing t
insert_record h (got heads) (got r) =
    got (record h { cur_record = r.1; tmp_record_list = h.tmp_record_list ++ (heads ++ r.0) ∷ [] })

unfoldable pub end_equip_info : Handler → Got Handler
end_equip_info h =
    insert_record h (get_heads head_tags h.cur_record) (get_records record_tags h.cur_record)

unfoldable pub end_element : Bytes → Handler → Got Handler
end_element name h =
    let h' = record h { opened = false; cur_element = name } in
    if is_equip_info name
    then end_equip_info h'
    else got (record h' { cur_record = assign name h.cur_value h.cur_record })

-- characters; the text is that of WCoder::ToString.
unfoldable pub characters : Bytes → Handler → Handler
characters text h =
    if h.opened
      && not (bytes_eq h.cur_element (codes "message"))
      && not (bytes_eq h.cur_element (codes "koujitInfo"))
      && not (is_equip_info h.cur_element)
    then record h { cur_value = h.cur_value ++ text }
    else h

-- What endDocument does: it counts the work, and gives the database thread the records and a record
-- with the end flag.
pub data Notice : Type 0 where
  inc_work_count : Notice
  content : Fields → Notice
  end_flag : Notice

unfoldable pub notices : List Fields → List Notice
notices [] = []
notices (r ∷ rs) = content r ∷ notices rs

unfoldable pub end_document : Bool → Handler → List Notice
end_document connected h =
    inc_work_count
    ∷ (if connected && not (is_empty h.tmp_record_list)
        then notices h.tmp_record_list ++ end_flag ∷ []
        else [])

pub data Event : Type 0 where
  starts : Bytes → Event
  ends : Bytes → Event
  text : Bytes → Event

abbrev pub new_handler : Handler
new_handler = record {
  opened = false;
  cur_element = [];
  cur_value = [];
  cur_record = [];
  tmp_record_list = [];
}

unfoldable pub handle_all : List Event → Handler → Got Handler
handle_all [] h = got h
handle_all (starts n ∷ es) h = handle_all es (start_element n h)
handle_all (text t ∷ es) h = handle_all es (characters t h)
handle_all (ends n ∷ es) h = elim (end_element n h) [
  | missing t ↦ missing t
  | got h' ↦ handle_all es h'
]

-- The parse of a well-formed document, up to its end or to the exception.
unfoldable pub parse : Bool → List Event → List Notice
parse connected es = elim (handle_all es new_handler) [
  | missing t ↦ []
  | got h ↦ end_document connected h
]
