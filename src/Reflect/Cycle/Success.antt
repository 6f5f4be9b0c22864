-- ===== src/Reflect/Cycle/Success.antt =====
-- What a round of the main loop has done when it goes on: every polled file is reflected once.
use others.Base.{
  ◌≡◌, refl, ap, sym, ◌∙◌, arith, Bool, true, false, if◌then◌else◌, List, [], ◌∷◌, ◌++◌, map,
  append-nil, append_assoc, ℕ, Option, none, some, Bytes, bytes_eq_refl, Bool-cases, Option-cases,
  inl, inr,
}
use others.Reflect.{Round, merge_csv_file, merge_file}
use others.Reflect.Merge.{merge_file_whole, merge_csv_file-step}
use others.Reflect.Files.{Directory, contents_of, is_success, move_all, move_file}
use others.Reflect.Files.Laws.{contents_of-write_file, member, move_all-moves, move_file-reads}
use others.Reflect.Cycle.{
  Env, WorkReflector, Outcome, again, or_empty, file_op_buffer_size, make_merge_file_name,
  source_of, is_created, reflector_merge, merged, move_into_backup, after_backup, after_merge,
  after_poll, start_round, poll_csv_file, round, after_signal,
}
use others.Reflect.Cycle.Exits.{buffer-pos}
use others.Reflect.Cycle.Safety.{reflector_merge-dirs}

-- The files of these names, in a row.
abbrev pub joined : Directory → List Bytes → Bytes
joined d [] = []
joined d (n ∷ ns) = or_empty (contents_of n d) ++ joined d ns

-- What a round that has polled `names` in the state `s`, and goes on, has made of it: the polled
-- files and no others are in the backup, the script has taken the merged file, and the merged file
-- is kept: it is what there was under its name, and then the polled files one after the other.
pub record IsReflected (e : Env) (names : List Bytes) (s t : WorkReflector) : Type 0 where
  pub gone :
      (k : Bytes)
      → contents_of k t.dirs.input ≡ (if member k names then none else contents_of k s.dirs.input)
  pub backed_up :
      (k : Bytes)
      → contents_of k t.dirs.csv_backup
        ≡ (if member k names then contents_of k s.dirs.input else contents_of k s.dirs.csv_backup)
  pub taken : is_success e.script ≡ true
  pub kept :
      contents_of (make_merge_file_name e.time) t.dirs.dat_backup
      ≡ some (
          or_empty (contents_of (make_merge_file_name e.time) s.dirs.output)
          ++ joined s.dirs.input names)

source_of-reads :
    (e : Env) (d : Directory) (n s : Bytes)
    → (source_of e d n).0 ≡ some s
    → or_empty (contents_of n d) ≡ s
unfolding source_of
source_of-reads e d n s g = elim (Bool-cases (e.copies n).opens_source) [
  | inr shut ↦ cc (rw shut at g)
  | inl open_ ↦ ground (arith, rw open_ at g)
]

sources-joined :
    (e : Env) (d : Directory) (ns : List Bytes) (dest out : Bytes)
    → merge_csv_file file_op_buffer_size (map (source_of e d) ns) dest ≡ some (true, out)
    → out ≡ dest ++ joined d ns
unfolding merge_csv_file
sources-joined e d [] dest out g = let a = append-nil dest in ground arith
sources-joined e d (n ∷ ns) dest out g =
    let b = file_op_buffer_size in
    let f = source_of e d n in
    let (mid, found, rest) = merge_csv_file-step b f (map (source_of e d) ns) dest out g in
    let (s, there, grown) = merge_file_whole b f.0 f.1 dest f.2 mid buffer-pos found in
    let read = source_of-reads e d n s there in
    sources-joined e d ns mid out rest ∙ rw (grown, read) (append_assoc dest s (joined d ns))

merge_file-opens :
    (b : ℕ) (f : Option Bytes × Bool × List Round) (fs : List (Option Bytes × Bool × List Round))
    (dest mid : Bytes)
    → merge_file b f.0 f.1 dest f.2 ≡ some (true, mid)
    → is_created (f ∷ fs) ≡ true
unfolding merge_file is_created
merge_file-opens b (none, opens, rounds) fs dest mid g = cc
merge_file-opens b (some s, true, rounds) fs dest mid g = refl
merge_file-opens b (some s, false, rounds) fs dest mid g = cc

after_backup_again :
    (e : Env) (m : Bool × WorkReflector) (t : WorkReflector)
    → after_backup e m ≡ (again, t)
    → m ≡ (true, t)
unfolding after_backup
after_backup_again e (true, r) t g = ap (λ z. (true, z.1)) g
after_backup_again e (false, r) t g = cc

after_merge_again :
    (e : Env) (m : Bool × WorkReflector) (t : WorkReflector)
    → after_merge e m ≡ (again, t)
    → (m.0 ≡ true) × (is_success e.script ≡ true) × (move_into_backup e m.1 ≡ (true, t))
unfolding after_merge
after_merge_again e (false, r) t g = cc
after_merge_again e (true, r) t g = elim (Bool-cases (is_success e.script)) [
  | inl good ↦
      (refl, good, after_backup_again e (move_into_backup e r) t (rw (good, after_merge) at g))
  | inr bad ↦ cc (rw (bad, after_merge) at g)
]

reflector_merge-true :
    (e : Env) (r : WorkReflector) (m : Bool × WorkReflector)
    → reflector_merge e r ≡ some m
    → m.0 ≡ true
    → let name = make_merge_file_name e.time in
      (out : Bytes) × (merge_csv_file file_op_buffer_size
          (map (source_of e r.dirs.input) r.csv_input_files)
          (or_empty (contents_of name r.dirs.output))
        ≡ some (true, out))
      × (m.1 ≡ (merged e r name (true, out)).1)
unfolding reflector_merge
reflector_merge-true e r m g h =
    elim (Option-cases (
      merge_csv_file file_op_buffer_size (map (source_of e r.dirs.input) r.csv_input_files)
        (or_empty (contents_of (make_merge_file_name e.time) r.dirs.output)))) [
          | inl stuck ↦ cc (rw (stuck, reflector_merge) at g)
          | inr ((true, out), found) ↦
              (out, found, ground (arith, rw (found, reflector_merge) at g))
          | inr ((false, out), found) ↦ ground (arith, rw (found, reflector_merge) at g)
        ]

-- The directories after a backup that succeeds.
move_into_backup-true :
    (e : Env) (r t : WorkReflector)
    → move_into_backup e r ≡ (true, t)
    → let m = move_all e.moves r.csv_input_files r.dirs.input r.dirs.csv_backup in
      let n = r.merge_output_file in
      let d = move_file (e.moves n) n r.dirs.output r.dirs.dat_backup in
      (m.ok ≡ true)
      × (d.ok ≡ true)
      × (t.dirs.input ≡ m.from)
      × (t.dirs.csv_backup ≡ m.to)
      × (t.dirs.dat_backup ≡ d.to)
unfolding move_into_backup
move_into_backup-true e r t g =
    let m = move_all e.moves r.csv_input_files r.dirs.input r.dirs.csv_backup in
    elim (Bool-cases m.ok) [
      | inr bad ↦ cc (rw (bad, move_into_backup) at g)
      | inl good ↦
          let h = rw (good, move_into_backup) at g in
          (
            good,
            ap (λ z. z.0) h,
            ap (λ z. z.1.dirs.input) (sym h),
            ap (λ z. z.1.dirs.csv_backup) (sym h),
            ap (λ z. z.1.dirs.dat_backup) (sym h),
          )
    ]

-- The merged file in the output directory, once the merging has succeeded.
merged_reads :
    (e : Env) (r : WorkReflector) (n : Bytes) (ns : List Bytes) (m : Bool × WorkReflector)
    → r.csv_input_files ≡ n ∷ ns
    → reflector_merge e r ≡ some m
    → m.0 ≡ true
    → let name = make_merge_file_name e.time in
      (m.1.merge_output_file ≡ name)
      × (contents_of name m.1.dirs.output
          ≡ some (or_empty (contents_of name r.dirs.output) ++ joined r.dirs.input (n ∷ ns)))
merged_reads e r n ns m names g h =
    let name = make_merge_file_name e.time in
    let dest = or_empty (contents_of name r.dirs.output) in
    let (out, found, same) = reflector_merge-true e r m g h in
    let found' = rw names at found in
    let whole = sources-joined e r.dirs.input (n ∷ ns) dest out found' in
    let (mid, first, rest) =
      merge_csv_file-step file_op_buffer_size (source_of e r.dirs.input n)
        (map (source_of e r.dirs.input) ns) dest out found' in
    let opens =
      merge_file-opens file_op_buffer_size (source_of e r.dirs.input n)
        (map (source_of e r.dirs.input) ns) dest mid first in
    let itself = bytes_eq_refl name in
    rw (same, names, opens)
      (refl, contents_of-write_file name name out r.dirs.output ∙ rw (itself, whole) refl)

after_merge_reflects :
    (e : Env) (s t : WorkReflector) (n : Bytes) (ns : List Bytes) (m : Bool × WorkReflector)
    → reflector_merge e (record s { csv_input_files = n ∷ ns }) ≡ some m
    → after_merge e m ≡ (again, t)
    → IsReflected e (n ∷ ns) s t
after_merge_reflects e s t n ns m g h =
    let r = record s { csv_input_files = n ∷ ns } in
    let name = make_merge_file_name e.time in
    let (well, script, backup) = after_merge_again e m t h in
    let (named, read) = merged_reads e r n ns m refl g well in
    let (input, csv_backup, files) = reflector_merge-dirs e r m g in
    let (all_ok, last_ok, from, to, dat) = move_into_backup-true e m.1 t backup in
    let moves = λ (k : Bytes).
      move_all-moves e.moves m.1.csv_input_files k m.1.dirs.input m.1.dirs.csv_backup all_ok in
    let (_, last, _) =
      move_file-reads (e.moves m.1.merge_output_file) m.1.merge_output_file m.1.merge_output_file
        m.1.dirs.output m.1.dirs.dat_backup last_ok in
    let mof = m.1.merge_output_file in
    let after = (move_file (e.moves mof) mof m.1.dirs.output m.1.dirs.dat_backup).to in
    let last' = rw (bytes_eq_refl mof) at last in
    record {
      gone = λ k. rw from ((moves k).0 ∙ rw (files, input) refl);
      backed_up = λ k. rw to ((moves k).1 ∙ rw (files, input, csv_backup) refl);
      taken = script;
      kept = rw dat (
          ap (λ z. contents_of z after) (sym named)
          ∙ (last' ∙ (ap (λ z. contents_of z m.1.dirs.output) named ∙ read)));
    }

after_poll_reflects :
    (e : Env) (s t : WorkReflector) (n : Bytes) (ns : List Bytes)
    → after_poll e (some (n ∷ ns)) s ≡ some (again, t)
    → IsReflected e (n ∷ ns) s t
unfolding after_poll
after_poll_reflects e s t n ns g =
    elim (Option-cases (reflector_merge e (record s { csv_input_files = n ∷ ns }))) [
      | inl stuck ↦ cc (rw (stuck, after_poll) at g)
      | inr (m, found) ↦
          let h = rw (found, after_poll) at g in
          after_merge_reflects e s t n ns m found (ground (arith, h))
    ]

after_signal_on :
    (sort : List Bytes → List Bytes) (e : Env) (stop : Bool) (s : WorkReflector)
    (names : Option (List Bytes)) {out : Option (Outcome × WorkReflector)}
    → stop ≡ false
    → poll_csv_file sort e s.dirs.input ≡ names
    → after_signal sort e stop s ≡ out
    → after_poll e names s ≡ out
unfolding after_signal
after_signal_on sort e true s names on polled g = cc
after_signal_on sort e false s names on polled g = rw (← polled) g

-- A round of the main loop that polls at least one file, with no stop asked for, and goes on, has
-- reflected these files: each is in the backup with its contents and no longer in the input
-- directory, the other files of the two directories are as they were, the script has ended well,
-- and the merged file, in its backup, holds what there was under its name and then the polled files
-- in a row.
pub round-reflects :
    (sort : List Bytes → List Bytes) (e : Env) (r t : WorkReflector) (n : Bytes) (ns : List Bytes)
    → let s = start_round e r in
      s.user_stop ≡ false
      → poll_csv_file sort e s.dirs.input ≡ some (n ∷ ns)
      → round sort e r ≡ some (again, t)
      → IsReflected e (n ∷ ns) s t
unfolding round
round-reflects sort e r t n ns on names g =
    let s = start_round e r in
    after_poll_reflects e s t n ns (after_signal_on sort e s.user_stop s (some (n ∷ ns)) on names g)
