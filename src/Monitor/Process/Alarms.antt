-- ===== src/Monitor/Process/Alarms.antt =====
-- What the operator is told of a process.
use others.Base.{
  ℕ, zero, suc, subst, ◌≡◌, Bool, ◌≢◌, ◌⊎◌, Bool-cases, ◌||◌, ◌==◌, inl, inr, arith, refl, true,
  false, List, [], ◌∷◌, ◌++◌, none, some, Option-cases,
}
use others.Monitor.Process.{
  Status, dummy, started, stopping, stopped, Poll, Watched, still_stopping, status_of,
  get_process_status, alarm, watch,
}

-- What the polls tell of a process, up to the first error: it has stopped where no process id is
-- found; it is stopping where it runs under the process id of the poll before and the stop signal
-- has come, now or at a poll since it has run under this id; and it has started otherwise.
pub data Tells : List Poll → Watched → List Status → Type 0 where
  no_poll : {w : Watched} → Tells [] w []
  failed : {p : Poll} {ps : List Poll} {w : Watched} → p.pid ≡ none → Tells (p ∷ ps) w []
  gone :
      {p : Poll} {ps : List Poll} {w : Watched} {ss : List Status}
      → p.pid ≡ some 0
      → Tells ps (record { is_stopping = false; proc_pid = 0 }) ss
      → Tells (p ∷ ps) w (stopped ∷ ss)
  other_id :
      {p : Poll} {ps : List Poll} {w : Watched} {ss : List Status} (pid : ℕ)
      → p.pid ≡ some pid
      → pid ≢ 0
      → pid ≢ w.proc_pid
      → Tells ps (record { is_stopping = false; proc_pid = pid }) ss
      → Tells (p ∷ ps) w (started ∷ ss)
  same_id :
      {p : Poll} {ps : List Poll} {w : Watched} {ss : List Status} (pid : ℕ)
      → p.pid ≡ some pid
      → pid ≢ 0
      → pid ≡ w.proc_pid
      → p.signalled ≡ false
      → w.is_stopping ≡ false
      → Tells ps (record { is_stopping = false; proc_pid = pid }) ss
      → Tells (p ∷ ps) w (started ∷ ss)
  asked_to_stop :
      {p : Poll} {ps : List Poll} {w : Watched} {ss : List Status} (pid : ℕ)
      → p.pid ≡ some pid
      → pid ≢ 0
      → pid ≡ w.proc_pid
      → (p.signalled ≡ true) ⊎ (w.is_stopping ≡ true)
      → Tells ps (record { is_stopping = true; proc_pid = pid }) ss
      → Tells (p ∷ ps) w (stopping ∷ ss)

-- A sequence without those that stand after the same one.
pub data Changes : Status → List Status → List Status → Type 0 where
  no_more : {old : Status} → Changes old [] []
  same_again : {old : Status} {ss ts : List Status} → Changes old ss ts → Changes old (old ∷ ss) ts
  changed :
      {old new : Status} {ss ts : List Status}
      → new ≢ old
      → Changes new ss ts
      → Changes old (new ∷ ss) (new ∷ ts)

-- The status of each poll, as the code computes it.
statuses : List Poll → Watched → List Status
statuses [] w = []
statuses (p ∷ ps) w =
    let r = get_process_status p w in elim r.1 [ none ↦ [] | some new ↦ new ∷ statuses ps r.0 ]

next-Tells :
    (p : Poll) (ps : List Poll) (w : Watched) (n : ℕ) (ss : List Status) (still : Bool)
    → p.pid ≡ some (suc n)
    → still ≡ still_stopping (p.signalled || w.is_stopping) (suc n) w.proc_pid
    → Tells ps (record { is_stopping = still; proc_pid = suc n }) ss
    → Tells (p ∷ ps) w (status_of still (suc n) ∷ ss)
unfolding still_stopping status_of
next-Tells p ps w n ss true e h t =
    let st : stopping ≡ status_of true (suc n) = ground arith in
    subst (λ x. Tells (p ∷ ps) w (x ∷ ss)) st
      (asked_to_stop (suc n) e (λ z. omega (arith, z)) (ground arith) (ground arith) t)
next-Tells p ps w n ss false e h t =
    let st : started ≡ status_of false (suc n) = ground arith in
    let some_id : suc n ≢ 0 = λ z. omega (arith, z) in
    subst (λ x. Tells (p ∷ ps) w (x ∷ ss)) st
      (elim (Bool-cases (suc n == w.proc_pid)) [
        | inr other ↦ other_id (suc n) e some_id (λ z. ground (arith, other, z)) t
        | inl same ↦ same_id (suc n) e some_id (ground arith) (ground arith) (ground arith) t
      ])

some-Tells :
    (p : Poll) (ps : List Poll) (w : Watched) (pid : ℕ) (ss : List Status) (still : Bool)
    → p.pid ≡ some pid
    → still ≡ still_stopping (p.signalled || w.is_stopping) pid w.proc_pid
    → Tells ps (record { is_stopping = still; proc_pid = pid }) ss
    → Tells (p ∷ ps) w (status_of still pid ∷ ss)
unfolding still_stopping status_of
some-Tells p ps w zero ss true e h t = ground arith
some-Tells p ps w zero ss false e h t = gone e t
some-Tells p ps w (suc n) ss still e h t = next-Tells p ps w n ss still e h t

statuses-none : (p : Poll) (ps : List Poll) (w : Watched) → p.pid ≡ none → [] ≡ statuses (p ∷ ps) w
unfolding statuses get_process_status
statuses-none p ps w e = ground arith

statuses-some :
    (p : Poll) (ps : List Poll) (w : Watched) (pid : ℕ)
    → p.pid ≡ some pid
    → let still = still_stopping (p.signalled || w.is_stopping) pid w.proc_pid in
      status_of still pid ∷ statuses ps (record { is_stopping = still; proc_pid = pid })
      ≡ statuses (p ∷ ps) w
unfolding statuses get_process_status
statuses-some p ps w pid e = ground arith

statuses-Tells : (ps : List Poll) (w : Watched) → Tells ps w (statuses ps w)
unfolding statuses
statuses-Tells [] w = no_poll
statuses-Tells (p ∷ ps) w = elim (Option-cases p.pid) [
  | inl e ↦ subst (Tells (p ∷ ps) w) (statuses-none p ps w e) (failed e)
  | inr (pid, e) ↦
      let still = still_stopping (p.signalled || w.is_stopping) pid w.proc_pid in
      let next : Watched = record { is_stopping = still; proc_pid = pid } in
      subst (Tells (p ∷ ps) w) (statuses-some p ps w pid e)
        (some-Tells p ps w pid (statuses ps next) still e refl (statuses-Tells ps next))
]

watch_all-Changes :
    (old new : Status) (ss ts : List Status)
    → Changes new ss ts
    → Changes old (new ∷ ss) (alarm old new ++ ts)
unfolding alarm
watch_all-Changes dummy dummy ss ts c = same_again c
watch_all-Changes started started ss ts c = same_again c
watch_all-Changes stopping stopping ss ts c = same_again c
watch_all-Changes stopped stopped ss ts c = same_again c
watch_all-Changes dummy started ss ts c = changed (λ e. cc) c
watch_all-Changes dummy stopping ss ts c = changed (λ e. cc) c
watch_all-Changes dummy stopped ss ts c = changed (λ e. cc) c
watch_all-Changes started dummy ss ts c = changed (λ e. cc) c
watch_all-Changes started stopping ss ts c = changed (λ e. cc) c
watch_all-Changes started stopped ss ts c = changed (λ e. cc) c
watch_all-Changes stopping dummy ss ts c = changed (λ e. cc) c
watch_all-Changes stopping started ss ts c = changed (λ e. cc) c
watch_all-Changes stopping stopped ss ts c = changed (λ e. cc) c
watch_all-Changes stopped dummy ss ts c = changed (λ e. cc) c
watch_all-Changes stopped started ss ts c = changed (λ e. cc) c
watch_all-Changes stopped stopping ss ts c = changed (λ e. cc) c

watch-statuses :
    (ps : List Poll) (w : Watched) (old : Status) → Changes old (statuses ps w) (watch ps w old).0
unfolding watch statuses
watch-statuses [] w old = no_more
watch-statuses (p ∷ ps) w old = elim (Option-cases (get_process_status p w).1) [
  | inl e ↦ rw (e, watch, statuses) no_more
  | inr (new, e) ↦
      rw (e, watch, statuses)
        (watch_all-Changes old new _ _ (watch-statuses ps (get_process_status p w).0 new))
]

-- Up to the first error, the alarms for one process are the changes of the status that the polls
-- tell, in their order: one for each change, and none where a poll tells the same as the one before.
pub watch-Changes :
    (ps : List Poll) (w : Watched) (old : Status)
    → (ss : List Status) × Tells ps w ss × Changes old ss (watch ps w old).0
watch-Changes ps w old = (statuses ps w, statuses-Tells ps w, watch-statuses ps w old)

-- A process that runs under another process id than before is reported as started, also where a
-- stop signal is pending, and the signal is forgotten.
pub get_process_status-restarted :
    (p : Poll) (pid : ℕ) (w : Watched)
    → p.pid ≡ some pid
    → pid ≢ 0
    → pid ≢ w.proc_pid
    → ((get_process_status p w).1 ≡ some started) × ((get_process_status p w).0.is_stopping ≡ false)
unfolding get_process_status still_stopping status_of
get_process_status-restarted p pid w e z d = ground arith

-- A stop signal is reported at the poll where it comes and still at the next one, as long as the
-- process runs under the process id it had.
pub get_process_status-remembers :
    (p q : Poll) (pid : ℕ) (w : Watched)
    → p.signalled ≡ true
    → p.pid ≡ some pid
    → q.pid ≡ some pid
    → pid ≢ 0
    → w.proc_pid ≡ pid
    → let r = get_process_status p w in
      (r.1 ≡ some stopping) × ((get_process_status q r.0).1 ≡ some stopping)
unfolding get_process_status still_stopping status_of
get_process_status-remembers p q pid w s e f z d = ground arith
