-- ===== src/Monitor/Main/Laws.antt =====
-- What the monitor has checked when it starts, and how it ends.
use others.Base.{
  ◌≡◌, ◌≢◌, ◌↔◌, inl, inr, arith, refl, ◌∙◌, Bool, true, false, List, [], ◌∷◌, Option, none, some,
  Bytes, Bool-cases, ◌==◌,
}
use others.Common.Conf.{open_conf}
use others.Monitor.Threads.{Watcher, watchers, start_monitor, check_running_status, stop_monitor}
use others.Monitor.Threads.Stops.{running, AllStop, stop_monitor-all}
use others.Monitor.Main.{
  Settings, System, read_settings, is_accepted, initialize, norm, Turn, exited, sig_term, give_up,
  wait_loop, Start, run_started, run_initialized, main,
}

-- What Initialize has checked of the names that it has read.
pub record IsReady (sys : System) (s : Settings) : Type 0 where
  pub recv_process : sys.accesses s.recv_proc_file_name ≡ true
  pub refl_process : sys.accesses s.refl_proc_file_name ≡ true
  pub recv_oc : s.recv_oc_name ≢ []
  pub recv_ao : s.recv_ao_id ≢ []
  pub refl_oc : s.refl_oc_name ≢ []
  pub refl_ao : s.refl_ao_id ≢ []
  pub recv_log : sys.appends s.recv_first_log_file_name ≡ true
  pub refl_log : sys.appends s.refl_first_log_file_name ≡ true

is_accepted-IsReady : (sys : System) (s : Settings) → (is_accepted sys s ≡ true) ↔ IsReady sys s
unfolding is_accepted
is_accepted-IsReady sys s = ground arith

initialize_lem :
    (sys : System) (conf : Option Bytes) (s : Settings)
    → (initialize sys conf ≡ some s) ↔ (
        ((open_conf conf []).0 ≡ true)
        × (s ≡ read_settings sys (open_conf conf []).1)
        × (is_accepted sys (read_settings sys (open_conf conf []).1) ≡ true))
unfolding initialize
initialize_lem sys conf s = ground arith

-- Initialize succeeds exactly when the configuration can be opened and what it names passes all
-- checks: both processes can be run, the four names of the alarms are set, and the first log file
-- of each process can be written. It then holds what the configuration says.
pub initialize-IsReady :
    (sys : System) (conf : Option Bytes) (s : Settings)
    → (initialize sys conf ≡ some s) ↔ (
        ((open_conf conf []).0 ≡ true)
        × (s ≡ read_settings sys (open_conf conf []).1)
        × IsReady sys s)
unfolding initialize
initialize-IsReady sys conf s =
    let settings = read_settings sys (open_conf conf []).1 in
    let (accepts, accepted) = is_accepted-IsReady sys settings in
    let (splits, joins) = initialize_lem sys conf s in
    (
      λ g. let (opened, same, ok) = splits g in (opened, same, rw same (accepts ok)),
      λ (opened, same, ready). joins (opened, same, accepted (rw same at ready)),
    )

-- A turn of the wait in which the signal comes and the monitor can stop all its threads.
pub record EndsWell (made : List Watcher) (stopped : List Watcher) (e : Turn) : Type 0 where
  pub signal : e.signalled ≡ true
  pub ran : check_running_status made e.threads ≡ true
  pub cancelled : stopped ≡ running made e.at_stop watchers
  pub stops : AllStop made e.at_stop watchers

-- Such a turn is among the turns.
pub data Some (P : Turn → Type 0) : List Turn → Type 0 where
  here : {e : Turn} {es : List Turn} → P e → Some P (e ∷ es)
  there : {e : Turn} {es : List Turn} → Some P es → Some P (e ∷ es)

sig_term_norm :
    (r : List Watcher × Bool) {ws : List Watcher}
    → sig_term r ≡ exited norm ws
    → (ws ≡ r.0) × (r.1 ≡ true)
unfolding sig_term
sig_term_norm (stopped, true) g = ground arith
sig_term_norm (stopped, false) g = ground arith

give_up_oterr : (r : List Watcher × Bool) {ws : List Watcher} → give_up r ≢ exited norm ws
unfolding give_up
give_up_oterr (stopped, b) g = ground arith

wait_loop_norm :
    (made : List Watcher) (es : List Turn) (ws : List Watcher)
    → wait_loop made es ≡ exited norm ws
    → Some (EndsWell made ws) es
unfolding wait_loop
wait_loop_norm made [] ws g = ground arith
wait_loop_norm made (e ∷ es) ws g =
    let st = stop_monitor made e.at_stop in
    let (cancels, all) = stop_monitor-all made e.at_stop in
    elim (Bool-cases (check_running_status made e.threads)) [
      | inr dead ↦ absurd (give_up_oterr st (rw (dead, wait_loop) at g))
      | inl ran ↦ elim (Bool-cases e.unmasks) [
        | inr bad ↦ absurd (give_up_oterr st (rw (ran, bad, wait_loop) at g))
        | inl open_ ↦ elim (Bool-cases e.signalled) [
          | inl signal ↦
              let (same, well) = sig_term_norm st (rw (ran, open_, signal, wait_loop) at g) in
              here (record {
                signal = signal;
                ran = ran;
                cancelled = same ∙ cancels;
                stops = all.0 well;
              })
          | inr quiet ↦ elim (Bool-cases e.masks) [
            | inr bad ↦ absurd (give_up_oterr st (rw (ran, open_, quiet, bad, wait_loop) at g))
            | inl masked ↦
                there (wait_loop_norm made es ws (rw (ran, open_, quiet, masked, wait_loop) at g))
          ]
        ]
      ]
    ]

run_started_norm :
    (s : Start) (es : List Turn) (r : List Watcher × Bool) (ws : List Watcher)
    → run_started s es r ≡ exited norm ws
    → (r.1 ≡ true) × Some (EndsWell r.0 ws) es
unfolding run_started
run_started_norm s es (made, true) ws g = (refl, wait_loop_norm made es ws g)
run_started_norm s es (made, false) ws g = absurd (give_up_oterr _ g)

run_initialized_norm :
    (s : Start) (es : List Turn) (o : Option Settings) (ws : List Watcher)
    → run_initialized s es o ≡ exited norm ws
    → (o ≢ none)
      × ((start_monitor s.threads).1 ≡ true)
      × Some (EndsWell (start_monitor s.threads).0 ws) es
unfolding run_initialized
run_initialized_norm s es none ws g = ground arith
run_initialized_norm s es (some settings) ws g =
    let (started, ends) = run_started_norm s es (start_monitor s.threads) ws g in
    (λ e. cc, started, ends)

-- The monitor exits with MONITOR_EXIT_NORM only if it could be initialised, all threads could be
-- started, and in one of its turns, with all threads running, the signal came, just the threads
-- that ran were cancelled, and each of these could be stopped and ended normally.
pub main_norm :
    (s : Start) (es : List Turn) (ws : List Watcher)
    → main s es ≡ exited norm ws
    → (initialize s.sys s.conf_again ≢ none)
      × ((start_monitor s.threads).1 ≡ true)
      × Some (EndsWell (start_monitor s.threads).0 ws) es
unfolding main run_initialized run_started
main_norm s es ws g = elim (Bool-cases (s.argc == 2)) [
  | inr bad ↦ ground (arith, rw (bad, main) at g)
  | inl two ↦ elim (Bool-cases s.registers) [
    | inr bad ↦ ground (arith, rw (two, bad, main) at g)
    | inl registered ↦ elim (Bool-cases s.masks) [
      | inr bad ↦ ground (arith, rw (two, registered, bad, main) at g)
      | inl masked ↦ elim (Bool-cases (open_conf s.conf []).0) [
        | inr bad ↦ ground (arith, rw (two, registered, masked, bad, main) at g)
        | inl opened ↦ elim (Bool-cases s.opens_logs) [
          | inr closed ↦ ground (arith, rw (two, registered, masked, opened, closed, main) at g)
          | inl logs ↦
              run_initialized_norm s es (initialize s.sys s.conf_again) ws
                (rw (two, registered, masked, opened, logs, main) at g)
        ]
      ]
    ]
  ]
]
