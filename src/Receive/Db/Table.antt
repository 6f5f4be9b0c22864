-- ===== src/Receive/Db/Table.antt =====
-- The statements of ExecuteRecords on the rows as Oracle knows them: by the texts of CSTNO and
-- CSTCHILDNO (receive/DBConnection.cxx).
use mathlib.Core.Option
use others.Base.{
  ◌≡◌, inl, inr, arith, refl, ap, ◌∙◌, Bool, true, ◌&&◌, List, [], ◌∷◌, ◌++◌, Option, none, some,
  Bytes, bytes_eq, Bool-cases, if◌then◌else◌,
}
use others.Base.Int.{ℤ}
use others.Receive.Db.{
  RealworkRecord, RealworkMap, Statement, select_realwork, rollback, insert_realwork,
  update_realwork, delete_realwork, commit, Action, db_action, same, map_find, is_new,
  update_actions, insert_actions, actions,
}
use others.Receive.Db.Rows.{
  updated, numbered_after, numbered_after_all, IsDistinct, IsDated, contents, wanted, reconciled,
}

-- WHERE CSTNO = :cstno AND CSTCHILDNO = :cstchildno
abbrev pub same_name : RealworkRecord → RealworkRecord → Bool
same_name k r = bytes_eq k.cst_no r.cst_no && bytes_eq k.cst_child_no r.cst_child_no

-- What a statement does to the row that bears the names of `k`. An insert adds its row; the rows
-- are those with WORKFLAG 0, which an insert sets.
unfoldable pub row_after :
    (Bytes → ℤ) → RealworkRecord → Statement → Option RealworkRecord → Option RealworkRecord
row_after number k (insert_realwork r) row = if same_name k r then some r else row
row_after number k (update_realwork old new) row =
    if same_name k old then Option.map (λ r. updated number r new) row else row
row_after number k (delete_realwork r) row = if same_name k r then none else row
row_after number k _ row = row

unfoldable pub row_after_all :
    (Bytes → ℤ) → RealworkRecord → List Action → Option RealworkRecord → Option RealworkRecord
row_after_all number k [] row = row
row_after_all number k (a ∷ acts) row = row_after_all number k acts (row_after number k a.0 row)

-- The row bears the names of `k`.
abbrev pub IsNamed : RealworkRecord → Option RealworkRecord → Type 0
IsNamed k none = true ≡ true
IsNamed k (some r) = same_name k r ≡ true

module _ (number : Bytes → ℤ) (k : RealworkRecord) where
  -- The records with the number of `k` are just those that bear its names.
  unfoldable pub AllNamed : RealworkMap → Type 0
  AllNamed [] = true ≡ true
  AllNamed (r ∷ m) = (same_name k r ≡ same number k r) × AllNamed m

  -- The statements do the same, whether rows are known by their names or by their numbers.
  abbrev AllSame : List Action → Type 0
  AllSame [] = true ≡ true
  AllSame (a ∷ acts) =
      ((row : Option RealworkRecord) → row_after number k a.0 row ≡ numbered_after number k a.0 row)
      × AllSame acts

  AllSame-append : (xs ys : List Action) → AllSame xs → AllSame ys → AllSame (xs ++ ys)
  AllSame-append [] ys h g = g
  AllSame-append (x ∷ xs) ys (e, h) g = (e, AllSame-append xs ys h g)

  action-same :
      (o : Option RealworkRecord) (d : RealworkRecord) (row : Option RealworkRecord)
      → same_name k d ≡ same number k d
      → row_after number k (db_action o d).0 row ≡ numbered_after number k (db_action o d).0 row
  unfolding row_after numbered_after db_action
  action-same none d row h = rw h refl
  action-same (some x) d row h = ground arith

  update_actions-AllSame :
      (xml db : RealworkMap) → AllNamed db → AllSame (update_actions number xml db)
  unfolding update_actions AllNamed
  update_actions-AllSame xml [] h = refl
  update_actions-AllSame xml (d ∷ db) (e, h) =
      (λ row. action-same (map_find number d xml) d row e, update_actions-AllSame xml db h)

  insert_actions-AllSame :
      (db xml : RealworkMap) → AllNamed xml → AllSame (insert_actions number db xml)
  unfolding insert_actions AllNamed row_after numbered_after
  insert_actions-AllSame db [] h = refl
  insert_actions-AllSame db (x ∷ xml) (e, h) =
      let rest = insert_actions-AllSame db xml h in
      elim (Bool-cases (is_new number db x)) [
        | inl t ↦ rw t (λ row. rw e refl, rest)
        | inr t ↦ rw t rest
      ]

  row_after_all-same :
      (acts : List Action) (row : Option RealworkRecord)
      → AllSame acts
      → row_after_all number k acts row ≡ numbered_after_all number k acts row
  unfolding row_after_all numbered_after_all
  row_after_all-same [] row h = refl
  row_after_all-same (a ∷ acts) row (e, h) =
      ap (row_after_all number k acts) (e row) ∙ row_after_all-same acts _ h

  actions-AllSame :
      (cst_no : Bytes) (xml db : RealworkMap)
      → AllNamed xml
      → AllNamed db
      → AllSame (actions number cst_no xml db)
  unfolding actions row_after numbered_after
  actions-AllSame cst_no xml db hx hd = (
    λ row. refl,
    AllSame-append (update_actions number xml db) _ (update_actions-AllSame xml db hd) (
        AllSame-append (insert_actions number db xml) _ (insert_actions-AllSame db xml hx)
          (λ row. refl, refl)),
  )

  row_after-IsNamed :
      (s : Statement) (row : Option RealworkRecord)
      → IsNamed k row
      → IsNamed k (row_after number k s row)
  unfolding row_after
  row_after-IsNamed (insert_realwork r) row h = elim (Bool-cases (same_name k r)) [
    | inl t ↦ rw t t
    | inr t ↦ rw t h
  ]
  row_after-IsNamed (delete_realwork r) row h = elim (Bool-cases (same_name k r)) [
    | inl t ↦ rw t refl
    | inr t ↦ rw t h
  ]
  row_after-IsNamed (update_realwork old new) none h = elim (Bool-cases (same_name k old)) [
    | inl t ↦ rw t refl
    | inr t ↦ rw t refl
  ]
  row_after-IsNamed (update_realwork old new) (some r) h = elim (Bool-cases (same_name k old)) [
    | inl t ↦ rw t h
    | inr t ↦ rw t h
  ]
  row_after-IsNamed (select_realwork c) row h = h
  row_after-IsNamed commit row h = h
  row_after-IsNamed rollback row h = h

  row_after_all-IsNamed :
      (acts : List Action) (row : Option RealworkRecord)
      → IsNamed k row
      → IsNamed k (row_after_all number k acts row)
  unfolding row_after_all
  row_after_all-IsNamed [] row h = h
  row_after_all-IsNamed (a ∷ acts) row h =
      row_after_all-IsNamed acts _ (row_after-IsNamed a.0 row h)

  map_find-IsNamed : (m : RealworkMap) → AllNamed m → IsNamed k (map_find number k m)
  unfolding map_find AllNamed
  map_find-IsNamed [] h = refl
  map_find-IsNamed (x ∷ m) (e, h) = elim (Bool-cases (same number k x)) [
    | inl t ↦ rw t (e ∙ t)
    | inr t ↦ rw t (map_find-IsNamed m h)
  ]

  pub IsNamed-reconciled :
      (cst_no : Bytes) (xml db : RealworkMap)
      → IsDistinct number xml
      → IsDistinct number db
      → IsDated number xml
      → AllNamed xml
      → AllNamed db
      → let row = row_after_all number k (actions number cst_no xml db) (map_find number k db) in
        (Option.map (contents number) row
          ≡ Option.map (contents number) (wanted number (map_find number k xml)))
        × IsNamed k row
  IsNamed-reconciled cst_no xml db dx dd dated nx nd =
      let acts = actions number cst_no xml db in
      let row = map_find number k db in
      (
        ap (Option.map (contents number))
              (row_after_all-same acts row (actions-AllSame cst_no xml db nx nd))
            ∙ reconciled number k cst_no xml db dx dd dated,
        row_after_all-IsNamed acts row (map_find-IsNamed db nd),
      )
