-- ===== src/Receive/HcCheck/Alarms.antt =====
-- What the thread tells the operator about health checks that have not come.
use others.Base.{
  ℕ, ◌+◌, ◌≤◌, ◌<◌, ◌≡◌, arith, refl, sym, ap, ◌∙◌, subst, length, replicate, append-nil,
  append_assoc, Bool, true, false, List, [], ◌∷◌, ◌++◌,
}
use others.Receive.HcCheck.{
  Flag, hc_check, ready, waits, HcCheckThread, set_flag, after_run, turn, expire, timed_out, Step,
  ticks, sets, turns, expires, times_out,
}

-- The pending events one after the other, each with a wait that times out.
pub drain : List Flag → HcCheckThread → HcCheckThread
drain [] t = t
drain (f ∷ fs) t = drain fs (timed_out (expire (turn (f ∷ fs) t.close t)))

-- Time goes on while a thread waits, and the wait times out.
pub data Steps : HcCheckThread → HcCheckThread → Type 0 where
  here : {t : HcCheckThread} → Steps t t
  next : {s t u : HcCheckThread} → Step s t → Steps t u → Steps s u

-- The thread is before Get, with a check asked for that has not come in time.
pub record IsOverdue (t : HcCheckThread) : Type 0 where
  pub at : t.place ≡ ready
  pub asked : t.m_stop ≡ false
  pub set : 0 < t.m_timeout
  pub linked : t.connected ≡ true
  pub over : t.last_hc_time + t.m_timeout ≤ t.now

-- The state after one pending event, with its wait timed out.
abbrev alarmed : List Flag → HcCheckThread → HcCheckThread
alarmed fs t = record t {
  events = fs;
  m_lock = false;
  place = ready;
  alarms = t.alarms ++ t.now ∷ [];
}

turn_waits :
    (t : HcCheckThread) (f : Flag) (fs : List Flag) (b : Bool)
    → IsOverdue t
    → turn (f ∷ fs) b t
      ≡ record t { events = fs; m_lock = true; place = waits (t.last_hc_time + t.m_timeout) }
unfolding turn after_run
turn_waits t f fs b h = ground arith

timed_out_alarms :
    (t : HcCheckThread) (f : Flag) (fs : List Flag) (b : Bool)
    → IsOverdue t
    → timed_out (expire (turn (f ∷ fs) b t)) ≡ alarmed fs t
unfolding timed_out expire
timed_out_alarms t f fs b h = rw (turn_waits t f fs b h) (rw (h.linked, timed_out) refl)

alarmed-IsOverdue : (t : HcCheckThread) (fs : List Flag) → IsOverdue t → IsOverdue (alarmed fs t)
alarmed-IsOverdue t fs h = ground arith

one_alarm :
    (t : HcCheckThread) (f : Flag) (fs : List Flag)
    → IsOverdue t
    → t.events ≡ f ∷ fs
    → {u : HcCheckThread} → Steps (timed_out (expire (turn (f ∷ fs) t.close t))) u
    → Steps t u
unfolding expire
one_alarm t f fs h e rest =
    let first = subst (λ es. Step t (turn es t.close t)) e (turns t h.at) in
    let place = ap (λ s. s.place) (turn_waits t f fs t.close h) in
    let time = ap (λ s. s.now) (turn_waits t f fs t.close h) in
    next first (
      next (expires (turn (f ∷ fs) t.close t) (t.last_hc_time + t.m_timeout) place (rw time h.over))
        (next (times_out (expire (turn (f ∷ fs) t.close t)) refl) rest))

-- One silence is told as often as events are pending: where the checks asked for have not come in
-- time, the thread goes through its pending events with no further event, and each of them gives
-- an alarm at the same time.
pub drain-alarms :
    (es : List Flag) (t : HcCheckThread)
    → IsOverdue t
    → t.events ≡ es
    → Steps t (drain es t) × ((drain es t).alarms ≡ t.alarms ++ replicate (length es) t.now)
unfolding drain
drain-alarms [] t h e = (here, sym (append-nil t.alarms))
drain-alarms (f ∷ fs) t h e =
    let same = timed_out_alarms t f fs t.close h in
    let (steps, told) = drain-alarms fs (alarmed fs t) (alarmed-IsOverdue t fs h) refl in
    (
      one_alarm t f fs h e (subst (λ u. Steps u (drain fs u)) (sym same) steps),
      rw (drain, same) (told ∙ append_assoc t.alarms (t.now ∷ []) (replicate (length fs) t.now)),
    )

-- A health check that comes in time can be followed by the alarm that it has not come: while the
-- thread waits with n seconds left, fewer than the timeout, there is a run in which the time of a
-- health check is set, the signal for it does not come within the n seconds, and the operator is
-- told of a timeout although less than the timeout has passed since that health check.
pub false_alarm :
    (t : HcCheckThread) (n : ℕ)
    → t.place ≡ waits (t.now + n)
    → n < t.m_timeout
    → t.connected ≡ true
    → (u : HcCheckThread) × Steps t u
      × (u.alarms ≡ t.alarms ++ u.now ∷ [])
      × (u.last_hc_time ≡ t.now)
      × (u.now < u.last_hc_time + u.m_timeout)
unfolding set_flag expire timed_out
false_alarm t n w before linked =
    let s1 : HcCheckThread = set_flag hc_check t in
    let s2 : HcCheckThread = record s1 { now = t.now + n } in
    (
      timed_out (expire s2),
      next (sets t hc_check) (
          next (ticks s1 n) (
            next (expires s2 (t.now + n) w (omega arith))
              (next (times_out (expire s2) refl) here))),
      rw (linked, timed_out) refl,
      rw (linked, timed_out) refl,
      rw (linked, timed_out) (omega arith),
    )
