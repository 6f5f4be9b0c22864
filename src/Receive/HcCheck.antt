-- ===== src/Receive/HcCheck.antt =====
-- The thread that watches the health checks (receive/WTimeOut.cxx), with the parts of
-- receive/WThread.cxx that drive it: Notify, Cancel and the loop of OnExecute. What the callers do
-- outside the mutex, what they do under it and what they do to the queue are steps of their own, and
-- so are the end of a wait and what the thread does once it holds the mutex again. A turn of the loop
-- up to its wait is one step. Time passes between the steps, and a wait may end for no reason.
pub mod Alarms
use others.Base.{
  ℕ, zero, suc, ◌+◌, ◌≤◌, ◌≡◌, Bool, true, false, not, ◌&&◌, ◌==◌, if◌then◌else◌, List, [], ◌∷◌,
  ◌++◌,
}

-- HC_CHECK_FLAG and HC_STOP_FLAG
pub data Flag : Type 0 where
  hc_check hc_stop : Flag

-- Where the loop of OnExecute stands: before Get, in pthread_cond_timedwait up to a time, timed out
-- there, signalled there, and at its end.
pub data Place : Type 0 where
  ready : Place
  waits : ℕ → Place
  expired : Place
  woken : Place
  ended : Place

-- WHCCheckThread, with its queue, WTimeOut::last_hc_time, the clock, whether the socket is
-- connected, and the times of the alarms about a health check that did not come.
pub record HcCheckThread : Type 0 where
  pub m_stop : Bool
  pub m_lock : Bool
  pub m_timeout : ℕ
  pub last_hc_time : ℕ
  pub events : List Flag
  pub close : Bool
  pub place : Place
  pub now : ℕ
  pub connected : Bool
  pub alarms : List ℕ

-- WHCCheckThread::WHCCheckThread
unfoldable pub new_thread : ℕ → HcCheckThread
new_thread timeout = record {
  m_stop = false;
  m_lock = false;
  m_timeout = timeout;
  last_hc_time = 0;
  events = [];
  close = false;
  place = ready;
  now = 0;
  connected = false;
  alarms = [];
}

-- pthread_cond_signal
unfoldable pub signal : Place → Place
signal (waits d) = woken
signal p = p

-- BeforeNotify up to the mutex: the time of the last health check and m_stop are set without it.
unfoldable pub set_flag : Flag → HcCheckThread → HcCheckThread
set_flag hc_check t = record t { last_hc_time = t.now; m_stop = false }
set_flag hc_stop t = record t { m_stop = true }

-- BeforeNotify and BeforeCancel under the mutex.
unfoldable pub signal_waiter : HcCheckThread → HcCheckThread
signal_waiter t = if t.m_lock then record t { place = signal t.place } else t

-- WThread::Notify after BeforeNotify: a closed queue takes no event.
unfoldable pub put_event : Flag → HcCheckThread → HcCheckThread
put_event f t = if t.close then t else record t { events = t.events ++ f ∷ [] }

-- AfterRun up to the wait.
unfoldable pub after_run : HcCheckThread → HcCheckThread
after_run t =
    if not t.m_stop && not (t.m_timeout == 0)
    then record t { m_lock = true; place = waits (t.last_hc_time + t.m_timeout) }
    else record t { place = ready }

-- One turn of the loop of OnExecute: Get, Run and AfterRun, or the end at a closed queue. Get waits
-- at an empty queue that is open.
unfoldable pub turn : List Flag → Bool → HcCheckThread → HcCheckThread
turn [] true t = record t { place = ended }
turn [] false t = t
turn (f ∷ fs) close t = after_run (record t { events = fs })

-- pthread_cond_timedwait has ended with ETIMEDOUT, and the mutex is not held again yet.
unfoldable pub expire : HcCheckThread → HcCheckThread
expire t = record t { place = expired }

-- AfterRun from the return of the wait on, where it has timed out.
unfoldable pub timed_out : HcCheckThread → HcCheckThread
timed_out t =
    if not t.connected
    then record t { m_lock = false; place = ready }
    else record t { m_lock = false; place = ready; alarms = t.alarms ++ t.now ∷ [] }

-- AfterRun from the return of the wait on, where it has not.
unfoldable pub resumed : HcCheckThread → HcCheckThread
resumed t = record t { m_lock = false; place = ready }

-- The steps of Notify and Cancel may come at any time, with others between them.
pub data Step : HcCheckThread → HcCheckThread → Type 0 where
  ticks : (t : HcCheckThread) (n : ℕ) → Step t (record t { now = t.now + n })
  connects : (t : HcCheckThread) (b : Bool) → Step t (record t { connected = b })
  sets : (t : HcCheckThread) (f : Flag) → Step t (set_flag f t)
  signals : (t : HcCheckThread) → Step t (signal_waiter t)
  puts : (t : HcCheckThread) (f : Flag) → Step t (put_event f t)
  closes : (t : HcCheckThread) → Step t (record t { close = true })
  turns : (t : HcCheckThread) → t.place ≡ ready → Step t (turn t.events t.close t)
  expires : (t : HcCheckThread) (d : ℕ) → t.place ≡ waits d → d ≤ t.now → Step t (expire t)
  times_out : (t : HcCheckThread) → t.place ≡ expired → Step t (timed_out t)
  resumes : (t : HcCheckThread) → t.place ≡ woken → Step t (resumed t)
  wakes : (t : HcCheckThread) (d : ℕ) → t.place ≡ waits d → Step t (resumed t)
