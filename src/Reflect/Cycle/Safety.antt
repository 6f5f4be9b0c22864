-- ===== src/Reflect/Cycle/Safety.antt =====
-- No result file is lost, and every round of the main loop ends.
use others.Base.{
  ◌≡◌, ◌⊎◌, inl, inr, arith, refl, ◌∙◌, subst, Bool, true, false, List, [], ◌∷◌, Option, none, some,
  Bytes, Bool-cases, Option-cases,
}
use others.Reflect.Files.{Directory, contents_of, is_success, move_all}
use others.Reflect.Files.Laws.{IsKept, contents_of-write_file, move_all-IsKept}
use others.Reflect.Cycle.{
  Env, WorkReflector, Outcome, again, user_stopped, broken, arrive, reflector_merge,
  move_into_backup, delete_merged_file, after_backup, after_merge, after_poll, after_signal,
  start_round, poll_csv_file, round, main_loop,
}

-- A result file is in the directory of the input, or in the backup.
abbrev pub Holds : Bytes → Bytes → WorkReflector → Type 0
Holds k v r = IsKept k v r.dirs.input r.dirs.csv_backup

carry :
    (P : WorkReflector → Type 0) {x y : Outcome × WorkReflector} → some x ≡ some y → P x.1 → P y.1
carry P g p = subst (λ o. elim o [ none ↦ Unit | some z ↦ P z.1 ]) g p

pub reflector_merge-dirs :
    (e : Env) (r : WorkReflector) (m : Bool × WorkReflector)
    → reflector_merge e r ≡ some m
    → (m.1.dirs.input ≡ r.dirs.input)
      × (m.1.dirs.csv_backup ≡ r.dirs.csv_backup)
      × (m.1.csv_input_files ≡ r.csv_input_files)
unfolding reflector_merge
reflector_merge-dirs e r m g = (ground arith, ground arith, ground arith)

module _ (k v : Bytes) (e : Env) where
  move_into_backup-Holds : (r : WorkReflector) → Holds k v r → Holds k v (move_into_backup e r).1
  unfolding move_into_backup
  move_into_backup-Holds r h =
      let kept = move_all-IsKept e.moves r.csv_input_files k v r.dirs.input r.dirs.csv_backup h in
      elim (Bool-cases (move_all e.moves r.csv_input_files r.dirs.input r.dirs.csv_backup).ok) [
        | inl good ↦ rw good kept
        | inr bad ↦ rw bad kept
      ]

  delete_merged_file-Holds : (r : WorkReflector) → Holds k v r → Holds k v (delete_merged_file e r)
  unfolding delete_merged_file
  delete_merged_file-Holds r h = elim (Bool-cases e.unlinks) [
    | inl good ↦ rw good h
    | inr bad ↦ rw bad h
  ]

  after_backup-Holds : (m : Bool × WorkReflector) → Holds k v m.1 → Holds k v (after_backup e m).1
  unfolding after_backup
  after_backup-Holds (true, r) h = h
  after_backup-Holds (false, r) h = delete_merged_file-Holds _ h

  after_merge-Holds : (m : Bool × WorkReflector) → Holds k v m.1 → Holds k v (after_merge e m).1
  unfolding after_merge
  after_merge-Holds (false, r) h = delete_merged_file-Holds _ h
  after_merge-Holds (true, r) h = elim (Bool-cases (is_success e.script)) [
    | inl good ↦ rw good (after_backup-Holds (move_into_backup e r) (move_into_backup-Holds r h))
    | inr bad ↦ rw bad (delete_merged_file-Holds _ h)
  ]

  reflector_merge-Holds :
      (r : WorkReflector) (m : Bool × WorkReflector)
      → reflector_merge e r ≡ some m
      → Holds k v r
      → Holds k v m.1
  unfolding reflector_merge
  reflector_merge-Holds r m g h =
      let (input, backup, _) = reflector_merge-dirs e r m g in rw (input, backup) h

  after_poll-Holds :
      (names : Option (List Bytes)) (r : WorkReflector) (out : Outcome × WorkReflector)
      → after_poll e names r ≡ some out
      → Holds k v r
      → Holds k v out.1
  unfolding after_poll
  after_poll-Holds none r out g h = carry (Holds k v) g h
  after_poll-Holds (some []) r out g h = carry (Holds k v) g h
  after_poll-Holds (some (n ∷ ns)) r out g h =
      let r' = record r { csv_input_files = n ∷ ns } in
      elim (Option-cases (reflector_merge e r')) [
        | inl stuck ↦ cc (rw (stuck, after_poll) at g)
        | inr (m, found) ↦
            carry (Holds k v) (rw (found, after_poll) at g)
              (after_merge-Holds m (reflector_merge-Holds r' m found h))
      ]

  after_signal-Holds :
      (sort : List Bytes → List Bytes) (stop : Bool) (s : WorkReflector)
      (out : Outcome × WorkReflector)
      → after_signal sort e stop s ≡ some out
      → Holds k v s
      → Holds k v out.1
  unfolding after_signal
  after_signal-Holds sort true s out g h = carry (Holds k v) g h
  after_signal-Holds sort false s out g h =
      after_poll-Holds (poll_csv_file sort e s.dirs.input) s out g h

  arrive-reads :
      (fs d : Directory) → contents_of k fs ≡ none → contents_of k (arrive fs d) ≡ contents_of k d
  unfolding arrive contents_of
  arrive-reads [] d g = refl
  arrive-reads ((j, w) ∷ fs) d g =
      ground (arith, contents_of-write_file j k w (arrive fs d), arrive-reads fs d)

  -- A round keeps every result file that is not written anew, however the round goes.
  round-Holds :
      (sort : List Bytes → List Bytes) (r : WorkReflector) (out : Outcome × WorkReflector)
      → contents_of k e.arrivals ≡ none
      → round sort e r ≡ some out
      → Holds k v r
      → Holds k v out.1
  unfolding round start_round
  round-Holds sort r out quiet g h =
      after_signal-Holds sort (start_round e r).user_stop (start_round e r) out g
        (rw (arrive-reads e.arrivals r.dirs.input quiet) h)

-- What the loop does after its first round.
pub main_loop-step :
    (sort : List Bytes → List Bytes) (e : Env) (es : List Env) (r : WorkReflector)
    (out : Outcome × WorkReflector)
    → main_loop sort (e ∷ es) r ≡ some out
    → ((s : WorkReflector) × (round sort e r ≡ some (again, s)) × (main_loop sort es s ≡ some out))
      ⊎ (round sort e r ≡ some out)
unfolding main_loop
main_loop-step sort e es r out g = elim (Option-cases (round sort e r)) [
  | inl stuck ↦ cc (rw (stuck, main_loop) at g)
  | inr ((again, s), found) ↦ inl (s, found, rw (found, main_loop) at g)
  | inr ((user_stopped, s), found) ↦ inr (found ∙ (rw (found, main_loop) at g))
  | inr ((broken, s), found) ↦ inr (found ∙ (rw (found, main_loop) at g))
]

-- No file of this name arrives in these rounds.
abbrev pub NoneArrive : Bytes → List Env → Type 0
NoneArrive k [] = Unit {0}
NoneArrive k (e ∷ es) = (contents_of k e.arrivals ≡ none) × NoneArrive k es

-- Over any rounds of the main loop, however each of them goes and the loop ends: a result file
-- that is in the input directory, or in the backup only, is afterwards in the input directory, or
-- in the backup only, with the same contents, unless a file of its name arrives meanwhile.
pub main_loop-Holds :
    (sort : List Bytes → List Bytes) (es : List Env) (k v : Bytes) (r : WorkReflector)
    (out : Outcome × WorkReflector)
    → NoneArrive k es
    → main_loop sort es r ≡ some out
    → Holds k v r
    → Holds k v out.1
unfolding main_loop
main_loop-Holds sort [] k v r out quiet g h = carry (Holds k v) g h
main_loop-Holds sort (e ∷ es) k v r out (quiet, later) g h =
    elim (main_loop-step sort e es r out g) [
      | inl (s, found, rest) ↦
          main_loop-Holds sort es k v s out later rest
            (round-Holds k v e sort r (again, s) quiet found h)
      | inr found ↦ round-Holds k v e sort r out quiet found h
    ]
