-- ===== src/Reflect/Startup/Laws.antt =====
-- What the start of the reflector has checked, and what its ends tell the operator.
use others.Base.{
  ℕ, ◌+◌, ◌≡◌, ◌⊎◌, inl, inr, arith, refl, ◌∙◌, subst, Bool, true, false, List, [], ◌∷◌, ◌++◌,
  Option, none, some, Bytes, Bool-cases, Option-cases, is_empty, ◌==◌, codes,
}
use others.Common.Conf.{open_conf, read}
use others.Reflect.{check_dir, is_dir, last}
use others.Reflect.Cycle.{
  Env, Dirs, WorkReflector, Notice, app_start, init_error, app_exit, Outcome, again, user_stopped,
  broken, main_loop,
}
use others.Reflect.Cycle.Exits.{IsTold, main_loop-IsTold}
use others.Reflect.Startup.{
  perm_read, perm_write, perm_execute, System, Paths, Initialized, ready, refused, thrown, with_dir,
  checked_dir, check_files, read_paths, check_paths, initialize, norm, paramerr, conferr, sigregerr,
  initerr, oterr, Ended, exited, log_error, running, aborted, finish, run_initialized,
  empty_reflector, Start, main,
}

-- A directory that can be used as asked, under its name in the configuration, with a slash at the
-- end that is put there where it is missing.
pub record IsUsable (sys : System) (perm : ℕ) (name dir : Bytes) : Type 0 where
  pub directory : is_dir (sys.mode name) ≡ true
  pub permitted : sys.access name perm ≡ true
  pub slash : last dir ≡ some 47
  pub named : (dir ≡ name) ⊎ (dir ≡ name ++ 47 ∷ [])

last-snoc : (name : Bytes) (c : ℕ) → last (name ++ c ∷ []) ≡ some c
unfolding last
last-snoc [] c = refl
last-snoc (x ∷ []) c = refl
last-snoc (x ∷ y ∷ name) c = last-snoc (y ∷ name) c

checked_dir-IsUsable :
    (sys : System) (perm : ℕ) (name dir : Bytes)
    → checked_dir sys perm name ≡ some (true, dir)
    → IsUsable sys perm name dir
unfolding checked_dir check_dir
checked_dir-IsUsable sys perm name dir g = ground (arith, last-snoc name 47)

with_dir_ready :
    (o : Option (Bool × Bytes)) (k : Bytes → Initialized) {q : Paths}
    → with_dir o k ≡ ready q
    → (n : Bytes) × (o ≡ some (true, n)) × (k n ≡ ready q)
with_dir_ready none k g = cc
with_dir_ready (some (true, n)) k g = (n, refl, g)
with_dir_ready (some (false, n)) k g = cc

-- The names that Initialize ends with, beside those that it has read.
pub record IsReady (sys : System) (p q : Paths) : Type 0 where
  pub input : IsUsable sys (perm_read + perm_execute) p.csv_input_dir q.csv_input_dir
  pub output :
      IsUsable sys (perm_read + perm_write + perm_execute) p.dat_output_dir q.dat_output_dir
  pub csv_backup :
      IsUsable sys (perm_read + perm_write + perm_execute) p.csv_backup_dir q.csv_backup_dir
  pub dat_backup :
      IsUsable sys (perm_read + perm_write + perm_execute) p.dat_backup_dir q.dat_backup_dir
  pub script :
      (sys.access p.oc_script_file (perm_read + perm_execute) ≡ true)
      × (q.oc_script_file ≡ p.oc_script_file)
  pub config :
      (sys.access p.oc_config_file perm_read ≡ true) × (q.oc_config_file ≡ p.oc_config_file)

check_files_ready :
    (sys : System) (p q : Paths)
    → check_files sys p ≡ ready q
    → (sys.access p.oc_script_file (perm_read + perm_execute) ≡ true)
      × (sys.access p.oc_config_file perm_read ≡ true)
      × (q ≡ p)
unfolding check_files
check_files_ready sys p q g = ground arith

check_paths-IsReady : (sys : System) (p q : Paths) → check_paths sys p ≡ ready q → IsReady sys p q
unfolding check_paths
check_paths-IsReady sys p q g =
    let rwx = perm_read + perm_write + perm_execute in
    let (input, i, g1) =
      with_dir_ready (checked_dir sys (perm_read + perm_execute) p.csv_input_dir) _ g in
    let (output, o, g2) = with_dir_ready (checked_dir sys rwx p.dat_output_dir) _ g1 in
    let (csv, c, g3) = with_dir_ready (checked_dir sys rwx p.csv_backup_dir) _ g2 in
    let (dat, d, g4) = with_dir_ready (checked_dir sys rwx p.dat_backup_dir) _ g3 in
    let ui = checked_dir-IsUsable sys (perm_read + perm_execute) p.csv_input_dir input i in
    let uo = checked_dir-IsUsable sys rwx p.dat_output_dir output o in
    let uc = checked_dir-IsUsable sys rwx p.csv_backup_dir csv c in
    let ud = checked_dir-IsUsable sys rwx p.dat_backup_dir dat d in
    let (script, config, same) = check_files_ready sys _ q g4 in
    rw same (record {
      input = ui;
      output = uo;
      csv_backup = uc;
      dat_backup = ud;
      script = (script, refl);
      config = (config, refl);
    })

-- Where Initialize succeeds, the four names of the configuration are directories with the access
-- that each of them needs, kept under their names with a slash at the end, and the script and its
-- configuration can be accessed.
pub initialize-IsReady :
    (sys : System) (conf : Option Bytes) (q : Paths)
    → initialize sys conf ≡ ready q
    → IsReady sys (read_paths (open_conf conf []).1) q
unfolding initialize
initialize-IsReady sys conf q g = elim (Bool-cases (open_conf conf []).0) [
  | inl opened ↦ check_paths-IsReady sys _ q (rw (opened, initialize) at g)
  | inr shut ↦ cc (rw (shut, initialize) at g)
]

-- What main has told the operator, by the way it ends: nothing before the reflector is set up,
-- beside its start the failure of Initialize, or one error of the loop, or none, and its end.
abbrev pub HasTold : Ended → Type 0
HasTold (exited norm ns) = ns ≡ app_start ∷ app_exit ∷ []
HasTold (exited initerr ns) = ns ≡ app_start ∷ init_error ∷ []
HasTold (exited oterr ns) = (ns ≡ []) ⊎ ((n : Notice) × (ns ≡ app_start ∷ n ∷ app_exit ∷ []))
HasTold (exited paramerr ns) = ns ≡ []
HasTold (exited conferr ns) = ns ≡ []
HasTold (exited sigregerr ns) = ns ≡ []
HasTold (log_error ns) = ns ≡ []
HasTold (running ns) = ns ≡ app_start ∷ []
HasTold (aborted ns) = ns ≡ app_start ∷ []

carry : (P : Ended → Type 0) {x y : Ended} → some x ≡ some y → P x → P y
carry P g p = subst (λ o. elim o [ none ↦ Unit | some z ↦ P z ]) g p

finish-HasTold :
    (r : WorkReflector) (out : Outcome × WorkReflector)
    → r.notices ≡ app_start ∷ []
    → IsTold r out.0 out.1
    → HasTold (finish out)
unfolding finish
finish-HasTold r (again, s) h g = g ∙ h
finish-HasTold r (user_stopped, s) h g = rw (g, h) refl
finish-HasTold r (broken, s) h (n, g) = inr (n, rw (g, h) refl)

run_initialized-HasTold :
    (sort : List Bytes → List Bytes) (es : List Env) (dirs : Dirs) (i : Initialized) (o : Ended)
    → run_initialized sort es dirs i ≡ some o
    → HasTold o
unfolding run_initialized
run_initialized-HasTold sort es dirs refused o g = carry HasTold g refl
run_initialized-HasTold sort es dirs thrown o g = carry HasTold g refl
run_initialized-HasTold sort es dirs (ready p) o g =
    let r = empty_reflector dirs in
    elim (Option-cases (main_loop sort es r)) [
      | inl stuck ↦ cc (rw (stuck, run_initialized) at g)
      | inr (out, found) ↦
          carry HasTold (rw (found, run_initialized) at g)
            (finish-HasTold r out refl (main_loop-IsTold sort es r out found))
    ]

-- However its rounds go, main exits with REFL_EXIT_NORM only after it has told of its start and its
-- end and of no error; before the reflector is set up it tells nothing, and it exits with
-- REFL_EXIT_OTERR after at most one notice beside these two.
main-HasTold :
    (sort : List Bytes → List Bytes) (s : Start) (es : List Env) (o : Ended)
    → main sort s es ≡ some o
    → HasTold o
unfolding main
main-HasTold sort s es o g = elim (Bool-cases (s.argc == 2)) [
  | inr bad ↦ carry HasTold (rw (bad, main) at g) refl
  | inl two ↦ elim (Bool-cases (open_conf s.conf []).0) [
    | inr shut ↦ carry HasTold (rw (two, shut, main) at g) refl
    | inl opened ↦ elim (Bool-cases s.opens_logs) [
      | inr closed ↦ carry HasTold (rw (two, opened, closed, main) at g) refl
      | inl logs ↦
          elim (Bool-cases (
            is_empty (
              read (open_conf s.conf []).1 (codes "command")
                (codes "RTWORK_REFL_NOTIFY_OSI_ENTITY")))) [
                  | inl blank ↦ carry HasTold (rw (two, opened, logs, blank, main) at g) (inl refl)
                  | inr entity ↦ elim (Bool-cases s.registers) [
                    | inr unable ↦
                        carry HasTold (rw (two, opened, logs, entity, unable, main) at g) refl
                    | inl able ↦
                        run_initialized-HasTold sort es s.dirs (initialize s.sys s.conf_again) o
                          (rw (two, opened, logs, entity, able, main) at g)
                  ]
                ]
    ]
  ]
]
