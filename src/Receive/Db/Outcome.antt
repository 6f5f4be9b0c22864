-- ===== src/Receive/Db/Outcome.antt =====
-- How ExecuteRecords ends, and what it leaves.
use others.Base.{
  ℕ, suc, zero, ◌≡◌, ◌⊎◌, inl, inr, arith, refl, sym, ap, ◌∙◌, Bool, true, false, ◌||◌, List, [],
  ◌∷◌, ◌++◌, Option, none, some, replicate, ◌≤◌, ◌-◌, Bytes, is_empty, append_assoc, append-nil,
  map,
}
use others.Base.Int.{ℤ, pos, ◌-ℤ◌}
use others.Receive.Db.{
  RealworkRecord, Statement, Answer, done, sql_error, lost, other, rollback, CstFile, not_open,
  open_with, published, removed, write_record, write_end, Action, Work, add_line, perform, actions,
  load, DbWrite, conclude, execute_records, reconnect_db,
}

abbrev line : Option RealworkRecord → List RealworkRecord
line none = []
line (some r) = r ∷ []

-- The lines that the actions write when all of them are done.
abbrev pub lines : List Action → List RealworkRecord
lines [] = []
lines (a ∷ acts) = line a.1 ++ lines acts

-- A file with these lines, opened for the first one.
abbrev pub file_with : List RealworkRecord → CstFile
file_with [] = not_open
file_with (r ∷ rs) = open_with (r ∷ rs)

-- The same, at the end of ExecuteRecords.
abbrev pub published_with : List RealworkRecord → CstFile
published_with [] = not_open
published_with (r ∷ rs) = published (r ∷ rs)

add_line-file_with :
    (rs : List RealworkRecord) (o : Option RealworkRecord)
    → add_line o (file_with rs) ≡ file_with (rs ++ line o)
unfolding add_line write_record
add_line-file_with rs none = ap file_with (sym (append-nil rs))
add_line-file_with [] (some r) = refl
add_line-file_with (x ∷ rs) (some r) = refl

abbrev pub statements : List Action → List Statement
statements acts = map (λ a. a.0) acts

-- A file that is not in the result directory.
abbrev pub IsUnpublished : CstFile → Type 0
IsUnpublished not_open = true ≡ true
IsUnpublished (open_with rs) = true ≡ true
IsUnpublished (published rs) = true ≡ false
IsUnpublished removed = true ≡ true

abbrev IsOpenOrNot : CstFile → Type 0
IsOpenOrNot f = (rs : List RealworkRecord) × (f ≡ file_with rs)

abbrev full : List RealworkRecord → List Statement → Answer × Work
full rs log = (done, record { file = file_with rs; log = log })

Answer-cases : (a : Answer) → (a ≡ done) ⊎ (a ≡ sql_error) ⊎ (a ≡ lost) ⊎ (a ≡ other)
Answer-cases done = inl refl
Answer-cases sql_error = inr (inl refl)
Answer-cases lost = inr (inr (inl refl))
Answer-cases other = inr (inr (inr refl))

-- Either all the actions are done, with all their lines, or one statement threw.
abbrev Outcome : List Action → List RealworkRecord → List Statement → Answer × Work → Type 0
Outcome acts rs log r =
    (r ≡ full (rs ++ lines acts) (log ++ statements acts))
    ⊎ (((r.0 ≡ sql_error) ⊎ (r.0 ≡ lost) ⊎ (r.0 ≡ other)) × IsOpenOrNot r.1.file)

Outcome-cons :
    (a : Action) (acts : List Action) (rs : List RealworkRecord) (log : List Statement)
    → (r : Answer × Work) → Outcome acts (rs ++ line a.1) (log ++ a.0 ∷ []) r
    → Outcome (a ∷ acts) rs log r
Outcome-cons a acts rs log r (inl e) = inl (
    e
    ∙ ap (λ l. full l ((log ++ a.0 ∷ []) ++ statements acts))
        (append_assoc rs (line a.1) (lines acts))
    ∙ ap (full (rs ++ lines (a ∷ acts))) (append_assoc log (a.0 ∷ []) (statements acts)))
Outcome-cons a acts rs log r (inr e) = inr e

perform-Outcome :
    (answers : ℕ → Answer) (n : ℕ) (acts : List Action) (rs : List RealworkRecord)
    → (log : List Statement)
    → Outcome acts rs log (perform answers n acts (record { file = file_with rs; log = log }))
unfolding perform
perform-Outcome answers n [] rs log =
    inl (ap (λ l. full l log) (sym (append-nil rs)) ∙ ap (full (rs ++ [])) (sym (append-nil log)))
perform-Outcome answers n (a ∷ acts) rs log = elim (Answer-cases (answers n)) [
  | inl h ↦
      rw (h, perform, add_line-file_with rs a.1)
        (Outcome-cons a acts rs log _
          (perform-Outcome answers (suc n) acts (rs ++ line a.1) (log ++ a.0 ∷ [])))
  | inr (inl h) ↦ rw (h, perform) (inr (inl refl, (rs, refl)))
  | inr (inr (inl h)) ↦ rw (h, perform) (inr (inr (inl refl), (rs, refl)))
  | inr (inr (inr h)) ↦ rw (h, perform) (inr (inr (inr refl), (rs, refl)))
]

perform-all :
    (answers : ℕ → Answer) (n : ℕ) (acts : List Action) (w : Work)
    → ((i : ℕ) → answers i ≡ done)
    → (perform answers n acts w).0 ≡ done
unfolding perform
perform-all answers n [] w all = refl
perform-all answers n (a ∷ acts) w all =
    rw (all n, perform) (perform-all answers (suc n) acts _ all)

write_end-IsUnpublished : (f : CstFile) → IsOpenOrNot f → IsUnpublished (write_end false f)
unfolding write_end
write_end-IsUnpublished f (rs, e) = ground arith

write_end-published : (rs : List RealworkRecord) → write_end true (file_with rs) ≡ published_with rs
unfolding write_end
write_end-published [] = refl
write_end-published (r ∷ rs) = refl

-- The three ways in which a try block with the outcome `r` leaves ExecuteRecords.
conclude-cases :
    (w : DbWrite) (acts : List Action) (r : Answer × Work)
    → Outcome acts [] [] r
    → ((conclude w r ≡ record {
      writer = w;
      returned = true;
      file = published_with (lines acts);
      log = statements acts;
      alarms = 0;
    }))
      ⊎ (IsUnpublished (conclude w r).file
          × ((conclude w r).writer ≡ w)
          × (((conclude w r).returned ≡ false)
              ⊎ ((ls : List Statement) × ((conclude w r).log ≡ ls ++ rollback ∷ []))))
unfolding conclude
conclude-cases w acts r (inl e) = inl (
    ap (conclude w) e
    ∙ ap (λ f. record { writer = w; returned = true; file = f; log = statements acts; alarms = 0 })
        (write_end-published (lines acts)))
conclude-cases w acts (a, k) (inr (inl e, opened)) =
    rw e (inr (write_end-IsUnpublished k.file opened, refl, inr (k.log, refl)))
conclude-cases w acts (a, k) (inr (inr (inl e), opened)) =
    rw e (inr (write_end-IsUnpublished k.file opened, refl, inl refl))
conclude-cases w acts (a, k) (inr (inr (inr e), opened)) =
    rw e (inr (write_end-IsUnpublished k.file opened, refl, inr (k.log, refl)))

module _ (number : Bytes → ℤ) where
  -- The statements of a construction, with the lines of the file.
  abbrev pub planned : List RealworkRecord → DbWrite → List Action
  planned rows w = actions number w.cst_no w.xml_map (load number rows [])

  abbrev attempt : (answers : ℕ → Answer) → List RealworkRecord → DbWrite → Answer × Work
  attempt answers rows w =
      perform answers 0 (planned rows w) (record { file = file_with []; log = [] })

  abbrev loaded : List RealworkRecord → DbWrite → DbWrite
  loaded rows w = record w { db_map = load number rows [] }

  execute_records-tries :
      (answers : ℕ → Answer) (rows : List RealworkRecord) (w : DbWrite)
      → w.skip || is_empty w.cst_no ≡ false
      → execute_records number answers rows w ≡ conclude (loaded rows w) (attempt answers rows w)
  unfolding execute_records
  execute_records-tries answers rows w h = rw h refl

  -- Unless it skips the construction, ExecuteRecords either has all its statements done, in their
  -- order and with no alarm, and publishes just the lines of its actions; or it publishes nothing,
  -- keeps the announced records, and either ends with a rollback or returns false for a retry.
  pub execute_records-outcome :
      (answers : ℕ → Answer) (rows : List RealworkRecord) (w : DbWrite)
      → w.skip || is_empty w.cst_no ≡ false
      → let e = execute_records number answers rows w in
        ((e.returned ≡ true)
          × (e.log ≡ statements (planned rows w))
          × (e.file ≡ published_with (lines (planned rows w)))
          × (e.alarms ≡ 0))
        ⊎ (IsUnpublished e.file
            × (e.writer.xml_map ≡ w.xml_map)
            × ((e.returned ≡ false) ⊎ ((ls : List Statement) × (e.log ≡ ls ++ rollback ∷ []))))
  execute_records-outcome answers rows w h =
      let out = perform-Outcome answers 0 (planned rows w) [] [] in
      rw (execute_records-tries answers rows w h)
        (elim (conclude-cases (loaded rows w) (planned rows w) (attempt answers rows w) out) [
          | inl e ↦
              inl (
                ap (λ x. x.returned) e,
                ap (λ x. x.log) e,
                ap (λ x. x.file) e,
                ap (λ x. x.alarms) e,
              )
          | inr t ↦ inr (t.0, ap (λ v. v.xml_map) t.1, t.2)
        ])

-- Where the session comes back after fewer failures than there are tries, ReconnectDB ends with the
-- writer as before and no notice to stop.
pub reconnect_db-back :
    (t j : ℕ) (opens : List Bool) (w : DbWrite)
    → j ≤ t
    → reconnect_db (pos (suc t)) (replicate j false ++ true ∷ opens) w ≡ some (w, false)
unfolding reconnect_db ◌-ℤ◌
reconnect_db-back t zero opens w h = refl
reconnect_db-back zero (suc j) opens w h = ground arith
reconnect_db-back (suc t) (suc j) opens w h =
    ground (arith, reconnect_db-back t j opens w (omega arith))

-- After as many failures as there are tries (after one, if that is 0) ReconnectDB ends, the writer
-- skips all that follows, and the main thread is told to stop.
pub reconnect_db-gives_up :
    (t : ℕ) (opens : List Bool) (w : DbWrite)
    → reconnect_db (pos t) (false ∷ replicate (t - 1) false ++ opens) w
      ≡ some (record w { skip = true }, true)
unfolding reconnect_db ◌-ℤ◌
reconnect_db-gives_up zero opens w = refl
reconnect_db-gives_up (suc zero) opens w = refl
reconnect_db-gives_up (suc (suc t)) opens w = ground (arith, reconnect_db-gives_up (suc t) opens w)
