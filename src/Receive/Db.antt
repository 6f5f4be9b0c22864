-- ===== src/Receive/Db.antt =====
-- The comparison of the announced construction records with the database: receive/DBWrite.cxx,
-- with the map and the statements of receive/DBConnection.cxx and the result file of
-- receive/CstFile.cxx. OTL and the database are code outside the repository: `answers` says how
-- each statement ends, and `number` is atoi.
pub mod Maps
pub mod Rows
pub mod Table
pub mod Outcome
use others.Base.{
  ℕ, suc, zero, ◌+◌, ◌-◌, ◌≡◌, Bool, true, false, not, ◌&&◌, ◌||◌, if◌then◌else◌, List, [], ◌∷◌,
  ◌++◌, Option, none, some, Bytes, bytes_eq, is_empty, leb,
}
use others.Base.Int.{ℤ, pos, ◌-ℤ◌, ltb_ℤ}

pub record RealworkRecord : Type 0 where
  pub cst_no : Bytes
  pub cst_child_no : Bytes
  pub node_id : Bytes
  pub ne_type : Bytes
  pub serialno : Bytes
  pub mms : Bytes
  pub rnc : Bytes
  pub bts : Bytes
  pub region_code : Bytes
  pub schedule_name : Bytes
  pub s_date_pre : Bytes
  pub e_date_pre : Bytes
  pub s_date : Bytes
  pub e_date : Bytes
  pub m_cnt : ℤ
  pub bld_name : Bytes
  pub m_type : Bytes
  pub input_res : Bytes

-- The statements that DBConnection sends, with the values they bind.
pub data Statement : Type 0 where
  select_realwork : Bytes → Statement
  insert_realwork : RealworkRecord → Statement
  update_realwork : RealworkRecord → RealworkRecord → Statement
  delete_realwork : RealworkRecord → Statement
  commit : Statement
  rollback : Statement

-- How a statement ends: done, an otl_exception with the session alive, a DBConnectException, or
-- another exception.
pub data Answer : Type 0 where
  done : Answer
  sql_error : Answer
  lost : Answer
  other : Answer

-- The file of CstFile: not open, open with its lines, renamed into the result directory, removed.
pub data CstFile : Type 0 where
  not_open : CstFile
  open_with : List RealworkRecord → CstFile
  published : List RealworkRecord → CstFile
  removed : CstFile

-- CstFile::WriteRecord, once the file can be opened, of a record with dates that ChangeTimeFormat
-- takes.
unfoldable pub write_record : RealworkRecord → CstFile → CstFile
write_record r (open_with rs) = open_with (rs ++ r ∷ [])
write_record r _ = open_with (r ∷ [])

-- CstFile::WriteEnd, once the file can be renamed or removed.
unfoldable pub write_end : Bool → CstFile → CstFile
write_end true (open_with rs) = published rs
write_end false (open_with rs) = removed
write_end ok file = file

abbrev pub RealworkMap : Type 0
RealworkMap = List RealworkRecord

-- The line of the result file for a row `d` that the construction now cancels: started, not ended.
unfoldable pub cancel_line : RealworkRecord → RealworkRecord → Option RealworkRecord
cancel_line x d =
    if bytes_eq x.node_id d.node_id && not (is_empty d.s_date) && is_empty d.e_date
    then some (record d { e_date = d.s_date })
    else none

-- The line for a row `d` that `x` ends at another date than before.
unfoldable pub end_line : RealworkRecord → RealworkRecord → Option RealworkRecord
end_line x d =
    if bytes_eq x.node_id d.node_id && not (is_empty x.e_date) && not (bytes_eq x.e_date d.e_date)
    then some (record d { s_date = x.s_date; e_date = x.e_date })
    else none

-- What the loop over the rows does with the row `d`, given the record found for it: the
-- statement, and the line.
unfoldable pub db_action :
    Option RealworkRecord → RealworkRecord → Statement × Option RealworkRecord
db_action none d = (delete_realwork d, none)
db_action (some x) d =
    if is_empty x.s_date && is_empty x.e_date
    then (delete_realwork d, cancel_line x d)
    else (update_realwork d x, end_line x d)

-- A statement, and the line that is written once it is done.
abbrev pub Action : Type 0
Action = Statement × Option RealworkRecord

-- The state of one ExecuteRecords: the file, the statements so far (the first one first).
pub record Work : Type 0 where
  pub file : CstFile
  pub log : List Statement

unfoldable pub add_line : Option RealworkRecord → CstFile → CstFile
add_line none file = file
add_line (some r) file = write_record r file

-- The statements from number `n` on, up to the first one that throws: how they end, and the work.
unfoldable pub perform : (ℕ → Answer) → ℕ → List Action → Work → Answer × Work
perform answers n [] w = (done, w)
perform answers n (a ∷ acts) w =
    let log = w.log ++ a.0 ∷ [] in
    elim (answers n) [
      | done ↦ perform answers (suc n) acts (record { file = add_line a.1 w.file; log = log })
      | sql_error ↦ (sql_error, record w { log = log })
      | lost ↦ (lost, record w { log = log })
      | other ↦ (other, record w { log = log })
    ]

-- The fields of DBWrite; `cst_no` is m_cstRecord.m_cstNo.
pub record DbWrite : Type 0 where
  pub skip : Bool
  pub cst_no : Bytes
  pub xml_map : RealworkMap
  pub db_map : RealworkMap

-- What ExecuteRecords returns, with the file, the statements and the alarms it leaves.
pub record Executed : Type 0 where
  pub writer : DbWrite
  pub returned : Bool
  pub file : CstFile
  pub log : List Statement
  pub alarms : ℕ

unfoldable pub nothing_done : DbWrite → Executed
nothing_done w = record { writer = w; returned = true; file = not_open; log = []; alarms = 0 }

-- The end of the try block, and the three catch blocks.
unfoldable pub conclude : DbWrite → Answer × Work → Executed
conclude w (done, k) = record {
  writer = w;
  returned = true;
  file = write_end true k.file;
  log = k.log;
  alarms = 0;
}
conclude w (sql_error, k) = record {
  writer = w;
  returned = true;
  file = write_end false k.file;
  log = k.log ++ rollback ∷ [];
  alarms = 1;
}
conclude w (lost, k) = record {
  writer = w;
  returned = false;
  file = write_end false k.file;
  log = k.log;
  alarms = 1;
}
conclude w (other, k) = record {
  writer = w;
  returned = true;
  file = write_end false k.file;
  log = k.log ++ rollback ∷ [];
  alarms = 0;
}

unfoldable pub clear_records : DbWrite → DbWrite
clear_records w = record w { xml_map = []; db_map = [] }

-- What FillRealworkRecord gives: a record, the result false, or the DBConnectException.
pub data Filled : Type 0 where
  filled : RealworkRecord → Filled
  refused : Filled
  fill_lost : Filled

-- ReconnectDB, where `opens` are the results of DBConnection::Open; `times` is m_times before
-- the next failure. `none`: the list is too short. The second result is whether the main thread
-- is told to stop; if it is not, the operator is told that the session is back.
unfoldable pub reconnect_db : ℤ → List Bool → DbWrite → Option (DbWrite × Bool)
reconnect_db times [] w = none
reconnect_db times (true ∷ opens) w = some (w, false)
reconnect_db times (false ∷ opens) w =
    let rest = reconnect_db (times -ℤ pos 1) opens w in
    if ltb_ℤ (pos 0) (times -ℤ pos 1) then rest else some (record w { skip = true }, true)

module _ (number : Bytes → ℤ) where
  -- RealworkRecordSort, and the equality of keys it leaves.
  abbrev pub less : RealworkRecord → RealworkRecord → Bool
  less a b = ltb_ℤ (number a.cst_child_no) (number b.cst_child_no)

  unfoldable pub same : RealworkRecord → RealworkRecord → Bool
  same a b = not (less a b) && not (less b a)

  -- m.insert(value_type(r.m_cstChildNo, r)): a key that is there keeps its record.
  unfoldable pub map_insert : RealworkRecord → RealworkMap → RealworkMap
  map_insert r [] = r ∷ []
  map_insert r (x ∷ m) =
      let rest = map_insert r m in
      if less r x then r ∷ x ∷ m else if less x r then x ∷ rest else x ∷ m

  -- m.find(r.m_cstChildNo)
  unfoldable pub map_find : RealworkRecord → RealworkMap → Option RealworkRecord
  map_find r [] = none
  map_find r (x ∷ m) = let rest = map_find r m in if same r x then some x else rest

  unfoldable pub is_missing : Option RealworkRecord → Bool
  is_missing none = true
  is_missing (some x) = false

  -- The loop over m_dbMap.
  unfoldable pub update_actions : RealworkMap → RealworkMap → List Action
  update_actions xml [] = []
  update_actions xml (d ∷ db) = db_action (map_find d xml) d ∷ update_actions xml db

  -- Whether the loop over m_xmlMap inserts `x`.
  abbrev pub is_new : RealworkMap → RealworkRecord → Bool
  is_new db x = not (is_empty x.s_date) && is_missing (map_find x db)

  -- The loop over m_xmlMap.
  unfoldable pub insert_actions : RealworkMap → RealworkMap → List Action
  insert_actions db [] = []
  insert_actions db (x ∷ xml) =
      let rest = insert_actions db xml in
      if is_new db x then (insert_realwork x, none) ∷ rest else rest

  -- SelectRealwork: m_dbMap from the rows that the database returns.
  unfoldable pub load : List RealworkRecord → RealworkMap → RealworkMap
  load [] m = m
  load (r ∷ rows) m = load rows (map_insert r m)

  -- The body of the try block of ExecuteRecords.
  unfoldable pub actions : Bytes → RealworkMap → RealworkMap → List Action
  actions cst_no xml db =
      (select_realwork cst_no, none) ∷ update_actions xml db
      ++ (insert_actions db xml ++ (commit, none) ∷ [])

  unfoldable pub execute_records : (ℕ → Answer) → List RealworkRecord → DbWrite → Executed
  execute_records answers rows w =
      let w' = record w { db_map = load rows [] } in
      if w.skip || is_empty w.cst_no
      then nothing_done w
      else conclude w' (
          perform answers 0 (actions w.cst_no w.xml_map w'.db_map)
            (record { file = not_open; log = [] }))

  unfoldable pub add_filled : Filled → DbWrite → DbWrite × Bool
  add_filled (filled r) w = (record w { xml_map = map_insert r w.xml_map }, true)
  add_filled refused w = (w, true)
  add_filled fill_lost w = (w, false)

  unfoldable pub add_xml_record : Bytes → Filled → DbWrite → DbWrite × Bool
  add_xml_record cst_no f w =
      if w.skip then (w, true) else add_filled f (record w { cst_no = cst_no })

  -- One round of the loop of WRecord::Run for the end of a construction, per element of the
  -- list: the answers, the rows and the results of the reconnection after it.
  unfoldable pub run_end :
      ℤ
      → List ((ℕ → Answer) × List RealworkRecord × List Bool)
      → DbWrite
      → Option (Executed × DbWrite)
  run_end retries [] w = none
  run_end retries (r ∷ rounds) w =
      let e = execute_records r.0 r.1 w in
      if e.returned
      then some (e, clear_records e.writer)
      else elim (reconnect_db retries r.2 e.writer) [
        | none ↦ none
        | some c ↦ run_end retries rounds c.0
      ]
