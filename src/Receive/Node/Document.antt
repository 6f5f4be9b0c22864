-- ===== src/Receive/Node/Document.antt =====
-- A whole document: its records put into the map, and then compared with the database.
use mathlib.Core.Option
use others.Base.{
  ◌≡◌, true, false, not, ◌&&◌, List, [], ◌∷◌, Option, none, some, Bytes, is_empty, if◌then◌else◌,
}
use others.Base.Int.{ℤ}
use others.Receive.Db.{RealworkRecord, Filled, filled, refused, fill_lost, DbWrite, same}
use others.Receive.Db.Rows.{IsDated}
use others.Receive.Db.Maps.{IsSorted}
use others.Receive.Node.{Sector, WRecord, fill_realwork_record, child_record}

module _ (read_hex : Bytes → ℤ) (print_int : ℤ → Bytes) (number : Bytes → ℤ)
    (mktime : ℤ → ℤ → ℤ → ℤ → ℤ → ℤ → ℤ) (auto : Bytes) where
  -- What FillRealworkRecord gives has an end date only with a start date.
  abbrev IsDatedRecord : RealworkRecord → Type 0
  IsDatedRecord r = is_empty r.s_date && not (is_empty r.e_date) ≡ false

  abbrev IsFilledOk : Filled → Type 0
  IsFilledOk (filled r) =
      IsDatedRecord r × (is_empty r.cst_no ≡ false) × (is_empty r.cst_child_no ≡ false)
  IsFilledOk refused = true ≡ true
  IsFilledOk fill_lost = true ≡ true

  -- The map of announced records, as every record added leaves it.
  abbrev pub IsMapOk : DbWrite → Type 0
  IsMapOk w = IsSorted number w.xml_map × IsDated number w.xml_map

  -- Of the records of a document, the first one with the number of `k` that FillRealworkRecord fills.
  abbrev taken : RealworkRecord → Filled → Option RealworkRecord → Option RealworkRecord
  taken k (filled r) rest = if same number k r then some r else rest
  taken k refused rest = rest
  taken k fill_lost rest = rest

  abbrev pub announced :
      List (Bytes × Bytes) → RealworkRecord → List (Sector × WRecord) → Option RealworkRecord
  announced conf k [] = none
  announced conf k (r ∷ rs) =
      taken k
        (fill_realwork_record read_hex print_int number mktime auto conf r.0 (child_record r.1))
        (announced conf k rs)

  abbrev or_first : Option RealworkRecord → Option RealworkRecord → Option RealworkRecord
  or_first (some x) rest = some x
  or_first none rest = rest
