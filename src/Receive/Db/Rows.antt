-- ===== src/Receive/Db/Rows.antt =====
-- The rows of a construction after the statements of ExecuteRecords.
use mathlib.Core.Option
use others.Base.{
  ◌≡◌, inl, inr, arith, refl, sym, ap, subst, ◌∙◌, true, false, not, ◌&&◌, List, [], ◌∷◌, ◌++◌,
  Option, none, some, Bytes, is_empty, Bool-cases, Option-cases, if◌then◌else◌,
}
use others.Base.Int.{ℤ}
use others.Receive.Db.{
  RealworkRecord, RealworkMap, Statement, insert_realwork, update_realwork, delete_realwork, commit,
  Action, db_action, same, map_find, is_missing, is_new, update_actions, insert_actions, actions,
}

module _ (number : Bytes → ℤ) where
  -- An update keeps CSTNO and CSTCHILDNO.
  abbrev pub updated : RealworkRecord → RealworkRecord → RealworkRecord
  updated row new = record new { cst_no = row.cst_no; cst_child_no = row.cst_child_no }

  -- What a statement would do to the row with the number of `k`, if rows were known by numbers.
  unfoldable pub numbered_after :
      RealworkRecord → Statement → Option RealworkRecord → Option RealworkRecord
  numbered_after k (insert_realwork r) row = if same number k r then some r else row
  numbered_after k (update_realwork old new) row =
      if same number k old then Option.map (λ r. updated r new) row else row
  numbered_after k (delete_realwork r) row = if same number k r then none else row
  numbered_after k _ row = row

  unfoldable pub numbered_after_all :
      RealworkRecord → List Action → Option RealworkRecord → Option RealworkRecord
  numbered_after_all k [] row = row
  numbered_after_all k (a ∷ acts) row = numbered_after_all k acts (numbered_after k a.0 row)

  -- No two records of one number.
  abbrev pub IsDistinct : RealworkMap → Type 0
  IsDistinct [] = true ≡ true
  IsDistinct (x ∷ m) = (map_find number x m ≡ none) × IsDistinct m

  -- An end date comes with a start date, as FillRealworkRecord makes sure.
  abbrev pub IsDated : RealworkMap → Type 0
  IsDated [] = true ≡ true
  IsDated (x ∷ m) = (is_empty x.s_date && not (is_empty x.e_date) ≡ false) × IsDated m

  -- The row that the announcement asks for: the announced record, if work has started on it.
  abbrev pub wanted : Option RealworkRecord → Option RealworkRecord
  wanted none = none
  wanted (some x) = if is_empty x.s_date then none else some x

  -- A row without the two fields that name it.
  abbrev pub contents : RealworkRecord → RealworkRecord
  contents r = record r { cst_no = []; cst_child_no = [] }

  same_trans : (a b c : RealworkRecord) → same number a b ≡ true → same number a c ≡ same number b c
  unfolding same
  same_trans a b c h = ground arith

  pub find_same :
      (a b : RealworkRecord) (m : RealworkMap)
      → same number a b ≡ true
      → map_find number a m ≡ map_find number b m
  unfolding map_find
  find_same a b [] h = refl
  find_same a b (x ∷ m) h = rw (same_trans a b x h, find_same a b m h) refl

  find-missing :
      (k d : RealworkRecord) (m : RealworkMap)
      → map_find number k (d ∷ m) ≡ none
      → (same number k d ≡ false) × (map_find number k m ≡ none)
  unfolding map_find
  find-missing k d m h = ground arith

  found_first :
      (k d e : RealworkRecord) (m : RealworkMap)
      → same number k d ≡ true
      → map_find number k (d ∷ m) ≡ some e
      → d ≡ e
  unfolding map_find
  found_first k d e m s h = ground arith

  found_later :
      (k d e : RealworkRecord) (m : RealworkMap)
      → same number k d ≡ false
      → map_find number k (d ∷ m) ≡ some e
      → map_find number k m ≡ some e
  unfolding map_find
  found_later k d e m s h = ground arith

  after_append :
      (k : RealworkRecord) (xs ys : List Action) (row : Option RealworkRecord)
      → numbered_after_all k (xs ++ ys) row ≡ numbered_after_all k ys (numbered_after_all k xs row)
  unfolding numbered_after_all
  after_append k [] ys row = refl
  after_append k (x ∷ xs) ys row = after_append k xs ys _

  numbered_after-other :
      (k d : RealworkRecord) (o : Option RealworkRecord) (row : Option RealworkRecord)
      → same number k d ≡ false
      → numbered_after k (db_action o d).0 row ≡ row
  unfolding numbered_after db_action
  numbered_after-other k d none row h = rw h refl
  numbered_after-other k d (some x) row h = ground arith

  updates-other :
      (k : RealworkRecord) (xml db : RealworkMap) (row : Option RealworkRecord)
      → map_find number k db ≡ none
      → numbered_after_all k (update_actions number xml db) row ≡ row
  unfolding numbered_after_all update_actions
  updates-other k xml [] row h = refl
  updates-other k xml (d ∷ db) row h =
      let m = find-missing k d db h in
      ap (numbered_after_all k (update_actions number xml db))
        (numbered_after-other k d (map_find number d xml) row m.0)
      ∙ updates-other k xml db row m.1

  -- The row of `d` after the loop over m_dbMap, given what is announced for its number.
  abbrev after_db : Option RealworkRecord → RealworkRecord → Option RealworkRecord
  after_db none d = none
  after_db (some x) d = if is_empty x.s_date && is_empty x.e_date then none else some (updated d x)

  numbered_after-own :
      (k d : RealworkRecord) (o : Option RealworkRecord)
      → same number k d ≡ true
      → numbered_after k (db_action o d).0 (some d) ≡ after_db o d
  unfolding numbered_after db_action
  numbered_after-own k d none h = rw h refl
  numbered_after-own k d (some x) h = ground arith

  updates-own :
      (k e : RealworkRecord) (xml db : RealworkMap)
      → IsDistinct db
      → map_find number k db ≡ some e
      → numbered_after_all k (update_actions number xml db) (some e)
        ≡ after_db (map_find number k xml) e
  unfolding numbered_after_all update_actions map_find
  updates-own k e xml [] dist h = ground arith
  updates-own k e xml (d ∷ db) dist h = elim (Bool-cases (same number k d)) [
    | inl s ↦
        let is_d = found_first k d e db s h in
        subst
          (λ r.
            numbered_after_all k (update_actions number xml (d ∷ db)) (some r)
            ≡ after_db (map_find number k xml) r)
          is_d
          (ap (numbered_after_all k (update_actions number xml db))
              (numbered_after-own k d (map_find number d xml) s)
            ∙ updates-other k xml db _ (find_same k d db s ∙ dist.0)
            ∙ ap (λ o. after_db o d) (sym (find_same k d xml s)))
    | inr s ↦
        ap (numbered_after_all k (update_actions number xml db))
          (numbered_after-other k d (map_find number d xml) (some e) s)
        ∙ updates-own k e xml db dist.1 (found_later k d e db s h)
  ]

  insert_step :
      (k x : RealworkRecord) (db xml : RealworkMap) (row : Option RealworkRecord)
      → numbered_after_all k (insert_actions number db (x ∷ xml)) row
        ≡ numbered_after_all k
            (insert_actions number db xml)
            (if is_new number db x && same number k x then some x else row)
  unfolding numbered_after_all insert_actions numbered_after
  insert_step k x db xml row = ground arith

  inserts-other :
      (k : RealworkRecord) (db xml : RealworkMap) (row : Option RealworkRecord)
      → map_find number k xml ≡ none
      → numbered_after_all k (insert_actions number db xml) row ≡ row
  inserts-other k db [] row h = unfold numbered_after_all insert_actions in refl
  inserts-other k db (x ∷ xml) row h =
      let m = find-missing k x xml h in
      insert_step k x db xml row ∙ ground (arith, m.0, inserts-other k db xml row m.1)

  inserts-present :
      (k d : RealworkRecord) (db xml : RealworkMap) (row : Option RealworkRecord)
      → map_find number k db ≡ some d
      → numbered_after_all k (insert_actions number db xml) row ≡ row
  unfolding is_missing
  inserts-present k d db [] row h = unfold numbered_after_all insert_actions in refl
  inserts-present k d db (x ∷ xml) row h =
      insert_step k x db xml row
      ∙ ground (arith, find_same k x db, inserts-present k d db xml row h)

  inserts-own :
      (k x : RealworkRecord) (db xml : RealworkMap)
      → IsDistinct xml
      → map_find number k db ≡ none
      → map_find number k xml ≡ some x
      → numbered_after_all k (insert_actions number db xml) none ≡ wanted (some x)
  unfolding is_missing
  inserts-own k x db [] dist h g = unfold map_find in ground arith
  inserts-own k x db (y ∷ xml) dist h g =
      insert_step k y db xml none ∙ elim (Bool-cases (same number k y)) [
        | inl s ↦
            let row = if is_new number db y && same number k y then some y else none in
            let gone = inserts-other k db xml row (find_same k y xml s ∙ dist.0) in
            ground (arith, found_first k y x xml s g, find_same k y db s, gone)
        | inr s ↦ ground (arith, inserts-own k x db xml dist.1 h (found_later k y x xml s g))
      ]

  after_db-wanted :
      (o : Option RealworkRecord) (d x : RealworkRecord)
      → o ≡ some x
      → is_empty x.s_date && not (is_empty x.e_date) ≡ false
      → Option.map contents (after_db o d) ≡ Option.map contents (wanted o)
  after_db-wanted o d x e h = rw e ground arith

  found_dated :
      (k x : RealworkRecord) (m : RealworkMap)
      → IsDated m
      → map_find number k m ≡ some x
      → is_empty x.s_date && not (is_empty x.e_date) ≡ false
  unfolding map_find
  found_dated k x [] dated h = ground arith
  found_dated k x (y ∷ m) dated h = ground (arith, found_dated k x m dated.1)

  rows_after :
      (k : RealworkRecord) (cst_no : Bytes) (xml db : RealworkMap) (row : Option RealworkRecord)
      → numbered_after_all k (actions number cst_no xml db) row
        ≡ numbered_after_all k
            (insert_actions number db xml)
            (numbered_after_all k (update_actions number xml db) row)
  unfolding actions numbered_after_all numbered_after
  rows_after k cst_no xml db row =
      let ups = update_actions number xml db in
      after_append k ups (insert_actions number db xml ++ (commit, none) ∷ []) row
      ∙ after_append k (insert_actions number db xml) ((commit, none) ∷ [])
          (numbered_after_all k ups row)

  reconciled_new :
      (k : RealworkRecord) (xml db : RealworkMap)
      → IsDistinct xml
      → map_find number k db ≡ none
      → numbered_after_all k (insert_actions number db xml) none ≡ wanted (map_find number k xml)
  reconciled_new k xml db dx h = elim (Option-cases (map_find number k xml)) [
    | inl n ↦ inserts-other k db xml none n ∙ ap wanted (sym n)
    | inr (x, e) ↦ inserts-own k x db xml dx h e ∙ ap wanted (sym e)
  ]

  reconciled_old :
      (k d : RealworkRecord) (xml : RealworkMap)
      → IsDated xml
      → Option.map contents (after_db (map_find number k xml) d)
        ≡ Option.map contents (wanted (map_find number k xml))
  reconciled_old k d xml dated = elim (Option-cases (map_find number k xml)) [
    | inl n ↦
        ap (λ o. Option.map contents (after_db o d)) n
        ∙ ap (λ o. Option.map contents (wanted o)) (sym n)
    | inr (x, e) ↦ after_db-wanted (map_find number k xml) d x e (found_dated k x xml dated e)
  ]

  pub reconciled :
      (k : RealworkRecord) (cst_no : Bytes) (xml db : RealworkMap)
      → IsDistinct xml
      → IsDistinct db
      → IsDated xml
      → Option.map contents
          (numbered_after_all k (actions number cst_no xml db) (map_find number k db))
        ≡ Option.map contents (wanted (map_find number k xml))
  reconciled k cst_no xml db dx dd dated =
      ap (Option.map contents) (rows_after k cst_no xml db (map_find number k db))
      ∙ elim (Option-cases (map_find number k db)) [
        | inl n ↦
            ap (λ o. Option.map contents (numbered_after_all k (insert_actions number db xml) o))
              (updates-other k xml db (map_find number k db) n ∙ n)
            ∙ ap (Option.map contents) (reconciled_new k xml db dx n)
        | inr (d, e) ↦
            ap (Option.map contents) (
              inserts-present k d db xml _ e
              ∙ ap (numbered_after_all k (update_actions number xml db)) e
              ∙ updates-own k d xml db dd e)
            ∙ reconciled_old k d xml dated
      ]
