-- ===== src/Reflect/Cycle/Exits.antt =====
-- How the rounds of the main loop end, and what the operator is told of it.
use others.Base.{
  ◌<◌, ◌≡◌, ◌⊎◌, inl, inr, arith, refl, ◌∙◌, subst, Bool, true, false, List, [], ◌∷◌, ◌++◌, map,
  Option, none, some, Bytes, bytes_eq_refl, Bool-cases, Option-cases,
}
use others.Reflect.Merge.{HasRounds, AllHaveRounds, merge_csv_file_ends}
use others.Reflect.Files.{Directory, contents_of, is_success}
use others.Reflect.Files.Laws.{contents_of-unlink_file}
use others.Reflect.Cycle.{
  Env, WorkReflector, Notice, Outcome, again, user_stopped, broken, file_op_buffer_size, source_of,
  merged, or_empty, make_merge_file_name, poll_csv_error, merge_csv_error, oc_refl_error,
  bk_file_error, reflector_merge, move_into_backup, delete_merged_file, notify, after_backup,
  after_merge, after_poll, after_signal, start_round, poll_csv_file, round, main_loop,
}
use others.Reflect.Cycle.Safety.{main_loop-step}

source_of-HasRounds : (e : Env) (input : Directory) (n : Bytes) → HasRounds (source_of e input n)
unfolding source_of
source_of-HasRounds e input n = elim (Bool-cases (e.copies n).opens_source) [
  | inr shut ↦ rw shut tt
  | inl open_ ↦ elim (Option-cases (contents_of n input)) [
    | inl gone ↦ rw (open_, gone) tt
    | inr (s, there) ↦ rw (open_, there) ((e.copies n).rounds, refl)
  ]
]

sources-AllHaveRounds :
    (e : Env) (input : Directory) (ns : List Bytes) → AllHaveRounds (map (source_of e input) ns)
sources-AllHaveRounds e input [] = tt
sources-AllHaveRounds e input (n ∷ ns) =
    (source_of-HasRounds e input n, sources-AllHaveRounds e input ns)

pub buffer-pos : 0 < file_op_buffer_size
unfolding file_op_buffer_size
buffer-pos = omega arith

reflector_merge_ends :
    (e : Env) (r : WorkReflector) → (m : Bool × WorkReflector) × (reflector_merge e r ≡ some m)
unfolding reflector_merge
reflector_merge_ends e r =
    let (m, found) =
      merge_csv_file_ends file_op_buffer_size (map (source_of e r.dirs.input) r.csv_input_files)
        (or_empty (contents_of (make_merge_file_name e.time) r.dirs.output)) buffer-pos
        (sources-AllHaveRounds e r.dirs.input r.csv_input_files) in
    (merged e r (make_merge_file_name e.time) m, rw (found, reflector_merge) refl)

after_poll_ends :
    (e : Env) (names : Option (List Bytes)) (r : WorkReflector)
    → (out : Outcome × WorkReflector) × (after_poll e names r ≡ some out)
unfolding after_poll
after_poll_ends e none r = (_, refl)
after_poll_ends e (some []) r = (_, refl)
after_poll_ends e (some (n ∷ ns)) r =
    let (m, found) = reflector_merge_ends e (record r { csv_input_files = n ∷ ns }) in
    (after_merge e m, rw (found, after_poll) refl)

after_signal_ends :
    (sort : List Bytes → List Bytes) (e : Env) (stop : Bool) (r : WorkReflector)
    → (out : Outcome × WorkReflector) × (after_signal sort e stop r ≡ some out)
unfolding after_signal
after_signal_ends sort e true r = (_, refl)
after_signal_ends sort e false r = after_poll_ends e (poll_csv_file sort e r.dirs.input) r

-- Every round ends: the copying loops of MergeFile come to their end, whatever goes wrong.
pub round_ends :
    (sort : List Bytes → List Bytes) (e : Env) (r : WorkReflector)
    → (out : Outcome × WorkReflector) × (round sort e r ≡ some out)
unfolding round
round_ends sort e r = after_signal_ends sort e (start_round e r).user_stop (start_round e r)

-- What a round, or the loop, has told beside what was told before: one error if it breaks off, and
-- nothing else.
abbrev pub IsTold : WorkReflector → Outcome → WorkReflector → Type 0
IsTold r broken s = (n : Notice) × (s.notices ≡ r.notices ++ n ∷ [])
IsTold r user_stopped s = s.notices ≡ r.notices
IsTold r again s = s.notices ≡ r.notices

-- The merged file is no longer in the output directory.
abbrev pub IsClean : WorkReflector → Type 0
IsClean s = contents_of s.merge_output_file s.dirs.output ≡ none

carry_out :
    (P : Outcome × WorkReflector → Type 0) {x y : Outcome × WorkReflector}
    → some x ≡ some y
    → P x
    → P y
carry_out P g p = subst (λ o. elim o [ none ↦ Unit | some z ↦ P z ]) g p

-- A round that breaks off leaves no merged file, if it is not the reading of the directory that
-- fails, and unlink() does not.
abbrev pub IsTidy : Env → WorkReflector → Outcome → WorkReflector → Type 0
IsTidy e r broken s =
    (s.notices ≡ r.notices ++ poll_csv_error ∷ []) ⊎ ((e.unlinks ≡ true) → IsClean s)
IsTidy e r user_stopped s = Unit {0}
IsTidy e r again s = Unit {0}

delete_merged_file_lem :
    (e : Env) (r : WorkReflector)
    → ((delete_merged_file e r).notices ≡ r.notices)
      × (e.unlinks ≡ true → IsClean (delete_merged_file e r))
unfolding delete_merged_file
delete_merged_file_lem e r = elim (Bool-cases e.unlinks) [
  | inl good ↦
      let same = bytes_eq_refl r.merge_output_file in
      rw good (
        refl,
        λ _.
            contents_of-unlink_file r.merge_output_file r.merge_output_file r.dirs.output
            ∙ rw same refl,
      )
  | inr bad ↦ rw bad (refl, λ t. cc)
]

abbrev IsRight : Env → WorkReflector → Outcome × WorkReflector → Type 0
IsRight e r out = IsTold r out.0 out.1 × IsTidy e r out.0 out.1

broken-IsRight :
    (e : Env) (n : Notice) (r s : WorkReflector)
    → s.notices ≡ r.notices
    → IsRight e r (broken, delete_merged_file e (notify n s))
broken-IsRight e n r s h =
    let (told, clean) = delete_merged_file_lem e (notify n s) in ((n, told ∙ rw h refl), inr clean)

move_into_backup-notices :
    (e : Env) (r : WorkReflector) → (move_into_backup e r).1.notices ≡ r.notices
unfolding move_into_backup
move_into_backup-notices e r = ground arith

after_backup-IsRight :
    (e : Env) (r : WorkReflector) (m : Bool × WorkReflector)
    → m.1.notices ≡ r.notices
    → IsRight e r (after_backup e m)
unfolding after_backup
after_backup-IsRight e r (true, s) h = (h, tt)
after_backup-IsRight e r (false, s) h = broken-IsRight e bk_file_error r s h

after_merge-IsRight :
    (e : Env) (r : WorkReflector) (m : Bool × WorkReflector)
    → m.1.notices ≡ r.notices
    → IsRight e r (after_merge e m)
unfolding after_merge
after_merge-IsRight e r (false, s) h = broken-IsRight e merge_csv_error r s h
after_merge-IsRight e r (true, s) h = elim (Bool-cases (is_success e.script)) [
  | inl good ↦
      rw good (after_backup-IsRight e r (move_into_backup e s) (move_into_backup-notices e s ∙ h))
  | inr bad ↦ rw bad (broken-IsRight e oc_refl_error r s h)
]

reflector_merge-notices :
    (e : Env) (r : WorkReflector) (m : Bool × WorkReflector)
    → reflector_merge e r ≡ some m
    → m.1.notices ≡ r.notices
unfolding reflector_merge
reflector_merge-notices e r m g = ground arith

after_poll-IsRight :
    (e : Env) (names : Option (List Bytes)) (r s : WorkReflector) (out : Outcome × WorkReflector)
    → after_poll e names s ≡ some out
    → s.notices ≡ r.notices
    → IsRight e r out
unfolding after_poll
after_poll-IsRight e none r s out g h =
    carry_out (IsRight e r) g ((poll_csv_error, rw h refl), inl (rw h refl))
after_poll-IsRight e (some []) r s out g h = carry_out (IsRight e r) g (h, tt)
after_poll-IsRight e (some (n ∷ ns)) r s out g h =
    let s' = record s { csv_input_files = n ∷ ns } in
    elim (Option-cases (reflector_merge e s')) [
      | inl stuck ↦ cc (rw (stuck, after_poll) at g)
      | inr (m, found) ↦
          carry_out (IsRight e r) (rw (found, after_poll) at g)
            (after_merge-IsRight e r m (reflector_merge-notices e s' m found ∙ h))
    ]

after_signal-IsRight :
    (sort : List Bytes → List Bytes) (e : Env) (stop : Bool) (r s : WorkReflector)
    (out : Outcome × WorkReflector)
    → after_signal sort e stop s ≡ some out
    → s.notices ≡ r.notices
    → IsRight e r out
unfolding after_signal
after_signal-IsRight sort e true r s out g h = carry_out (IsRight e r) g (h, tt)
after_signal-IsRight sort e false r s out g h =
    after_poll-IsRight e (poll_csv_file sort e s.dirs.input) r s out g h

round-IsRight :
    (sort : List Bytes → List Bytes) (e : Env) (r : WorkReflector) (out : Outcome × WorkReflector)
    → round sort e r ≡ some out
    → IsRight e r out
unfolding round start_round
round-IsRight sort e r out g =
    after_signal-IsRight sort e (start_round e r).user_stop r (start_round e r) out g refl

-- A round that breaks off, for another reason than that the input directory cannot be read, leaves
-- no merged file in the output directory, provided that unlink() works.
pub round-tidies :
    (sort : List Bytes → List Bytes) (e : Env) (r s : WorkReflector)
    → round sort e r ≡ some (broken, s)
    → e.unlinks ≡ true
    → (s.notices ≡ r.notices ++ poll_csv_error ∷ []) ⊎ IsClean s
round-tidies sort e r s g h = elim (round-IsRight sort e r (broken, s) g).1 [
  | inl polled ↦ inl polled
  | inr clean ↦ inr (clean h)
]

IsTold-later :
    (r s : WorkReflector) (o : Outcome) (t : WorkReflector)
    → s.notices ≡ r.notices
    → IsTold s o t
    → IsTold r o t
IsTold-later r s broken t h (n, g) = (n, g ∙ rw h refl)
IsTold-later r s user_stopped t h g = g ∙ h
IsTold-later r s again t h g = g ∙ h

-- Over any rounds, however they go: the operator is told of one error if the loop breaks off, and
-- of nothing if it runs on or ends by the user's signal.
pub main_loop-IsTold :
    (sort : List Bytes → List Bytes) (es : List Env) (r : WorkReflector)
    (out : Outcome × WorkReflector)
    → main_loop sort es r ≡ some out
    → IsTold r out.0 out.1
unfolding main_loop
main_loop-IsTold sort [] r out g = carry_out (λ z. IsTold r z.0 z.1) g refl
main_loop-IsTold sort (e ∷ es) r out g = elim (main_loop-step sort e es r out g) [
  | inl (s, found, rest) ↦
      IsTold-later r s out.0 out.1 (round-IsRight sort e r (again, s) found).0
        (main_loop-IsTold sort es s out rest)
  | inr found ↦ (round-IsRight sort e r out found).0
]
