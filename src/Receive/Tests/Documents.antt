-- ===== src/Receive/Tests/Documents.antt =====
-- A document of one record, and the rows of its construction.
use mathlib.Core.Option
use others.Base.{ℕ, ◌≡◌, ◌⊎◌, refl, true, false, List, [], ◌∷◌, ◌++◌, Bytes, codes, is_empty}
use others.Base.Int.{ℤ, negsuc, pos}
use others.Common.Conf.{map_key}
use others.Receive.Db.{Answer, DbWrite, done, execute_records, RealworkRecord, rollback, Statement}
use others.Receive.Db.Outcome.{
  execute_records-outcome, IsUnpublished, lines, planned, published_with, statements,
}
use others.Receive.Node.{add_contents, sector, WRecord}
use others.Receive.Sax.{ends, Event, starts, text}

-- The first digit, in place of atoi.
abbrev number : Bytes → ℤ
number [] = pos 0
number (c ∷ cs) = pos c

abbrev print_digit : ℤ → Bytes
print_digit (pos n) = n ∷ []
print_digit (negsuc n) = []

abbrev mktime : ℤ → ℤ → ℤ → ℤ → ℤ → ℤ → ℤ
mktime year mon day hour min sec = day

abbrev given : WRecord
given = record {
  cmngno = codes "C1";
  constnm = [];
  equip_count = codes "1";
  kono = codes "1";
  buil_nm = [];
  kaitei_nm = [];
  sdate = [];
  edate = [];
  jsdate = codes "20090104000000";
  jedate = [];
  ope_kd_flg = [];
  neid = codes "0100000000060001";
  sub_neid = codes "0001020300000000";
}

abbrev writer : DbWrite
writer = record { skip = false; cst_no = []; xml_map = []; db_map = [] }

abbrev row : RealworkRecord
row = record {
  cst_no = codes "C1";
  cst_child_no = codes "2";
  node_id = [];
  ne_type = [];
  serialno = [];
  mms = [];
  rnc = [];
  bts = [];
  region_code = [];
  schedule_name = [];
  s_date_pre = [];
  e_date_pre = [];
  s_date = codes "20090103000000";
  e_date = [];
  m_cnt = pos 1;
  bld_name = [];
  m_type = [];
  input_res = [];
}

-- The configuration that makes the type 06 a 0006.
abbrev conf : List (Bytes × Bytes)
conf = (map_key (codes "NETYPE") (codes "06"), codes "0006") ∷ []

abbrev after_document : DbWrite
after_document =
    add_contents number print_digit number mktime [] conf ((sector true [], given) ∷ []) writer

abbrev loaded_writer : DbWrite
loaded_writer = record writer { cst_no = codes "C1"; xml_map = row ∷ [] }

abbrev all_done : ℕ → Answer
all_done n = done

execute_records-outcome_example :
    let e = execute_records number all_done (row ∷ []) loaded_writer in
    ((e.returned ≡ true)
      × (e.log ≡ statements (planned number (row ∷ []) loaded_writer))
      × (e.file ≡ published_with (lines (planned number (row ∷ []) loaded_writer)))
      × (e.alarms ≡ 0))
    ⊎ (IsUnpublished e.file
        × (e.writer.xml_map ≡ row ∷ [])
        × ((e.returned ≡ false) ⊎ ((ls : List Statement) × (e.log ≡ ls ++ rollback ∷ []))))
execute_records-outcome_example =
    execute_records-outcome number all_done (row ∷ []) loaded_writer refl

abbrev events : List Event
events = starts (codes "kono") ∷ text (codes "1") ∷ ends (codes "kono") ∷ []
