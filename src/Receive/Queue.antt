-- ===== src/Receive/Queue.antt =====
-- The bounded queue between two threads (receive/include/WQueue.hxx), and the two threads that
-- use it: the producer in WThread::Notify, the consumer in WThread::OnExecute
-- (receive/WThread.cxx). What a thread does while it holds the mutex is one function here; a
-- pthread_cond_wait ends one such function and begins the next.
pub mod Run
use others.Base.{
  ℕ, suc, ◌≡◌, Bool, true, false, not, ◌&&◌, if◌then◌else◌, List, [], ◌∷◌, ◌++◌, Option, none, some,
}
use others.Base.Int.{ℤ, pos, ◌+ℤ◌, ◌-ℤ◌, eq_ℤ}

-- `items` is m_queue with its front first.
pub record WQueue (T : Type 0) : Type 0 where
  pub items : List T
  pub num : ℤ
  pub max : ℤ
  pub close : Bool

-- WQueue(int max); WQueue() is `new_queue (pos 0)`
unfoldable pub new_queue : {T : Type 0} → ℤ → WQueue T
new_queue max = record { items = []; num = pos 0; max = max; close = false }

-- The first test of Put, made before the mutex is taken: `none` is the result false.
unfoldable pub put_enters : {T : Type 0} → Option T → WQueue T → Option T
put_enters none q = none
put_enters (some item) q = if q.close then none else some item

-- m_max && m_num == m_max
abbrev pub is_full : {T : Type 0} → WQueue T → Bool
is_full q = not (eq_ℤ q.max (pos 0)) && eq_ℤ q.num q.max

-- Put from the insert on, with whether it signals m_cond_get.
unfoldable pub put_insert : {T : Type 0} → T → WQueue T → WQueue T × Bool
put_insert item q =
    let num = q.num +ℤ pos 1 in
    (record q { items = q.items ++ item ∷ []; num = num }, eq_ℤ num (pos 1))

-- Put from the lock on; `none` when it waits on m_cond_put.
unfoldable pub put_start : {T : Type 0} → T → WQueue T → Option (WQueue T × Bool)
put_start item q = if is_full q then none else some (put_insert item q)

-- What Get returns: an item, NULL, or whatever the list gives when it is empty.
pub data Got (T : Type 0) : Type 0 where
  item : T → Got T
  null : Got T
  nothing_there : Got T

abbrev pub pop : {T : Type 0} → List T → Got T × List T
pop [] = (nothing_there, [])
pop (x ∷ xs) = (item x, xs)

-- Get from the second test on, with whether it signals m_cond_put.
unfoldable pub get_take : {T : Type 0} → WQueue T → Got T × WQueue T × Bool
get_take q =
    if eq_ℤ q.num (pos 0) && q.close
    then (null, q, false)
    else (let num = q.num -ℤ pos 1 in
        (
          (pop q.items).0,
          record q { items = (pop q.items).1; num = num },
          not (eq_ℤ q.max (pos 0)) && eq_ℤ num (q.max -ℤ pos 1),
        ))

-- Get from the lock on; `none` when it waits on m_cond_get.
unfoldable pub get_start : {T : Type 0} → WQueue T → Option (Got T × WQueue T × Bool)
get_start q = if eq_ℤ q.num (pos 0) && not q.close then none else some (get_take q)

-- Close, with whether it signals m_cond_get.
unfoldable pub close_queue : {T : Type 0} → WQueue T → WQueue T × Bool
close_queue q = (record q { close = true }, eq_ℤ q.num (pos 0))

-- Where the producing thread stands: outside Put, past the first test, on m_cond_put, signalled.
pub data Producer (T : Type 0) : Type 0 where
  outside : Producer T
  entered : T → Producer T
  put_waits : T → Producer T
  put_woken : T → Producer T

-- Where the loop of OnExecute stands: before Get, on m_cond_get, signalled, after Get gave NULL,
-- after the list gave no item.
pub data Consumer : Type 0 where
  ready : Consumer
  get_waits : Consumer
  get_woken : Consumer
  ended : Consumer
  broken : Consumer

-- `put_log` and `got` are all the items inserted and taken so far, the first one first.
pub record System (T : Type 0) : Type 0 where
  pub queue : WQueue T
  pub producer : Producer T
  pub consumer : Consumer
  pub put_log : List T
  pub got : List T

-- pthread_cond_signal wakes the thread that waits, if there is one.
unfoldable pub signal_get : Bool → Consumer → Consumer
signal_get true get_waits = get_woken
signal_get _ c = c

unfoldable pub signal_put : {T : Type 0} → Bool → Producer T → Producer T
signal_put true (put_waits x) = put_woken x
signal_put _ p = p

unfoldable pub inserted : {T : Type 0} → T → WQueue T × Bool → System T → System T
inserted x r s = record s {
  queue = r.0;
  producer = outside;
  consumer = signal_get r.1 s.consumer;
  put_log = s.put_log ++ x ∷ [];
}

unfoldable pub after_got : {T : Type 0} → Got T → List T → Consumer × List T
after_got (item x) got = (ready, got ++ x ∷ [])
after_got null got = (ended, got)
after_got nothing_there got = (broken, got)

unfoldable pub taken : {T : Type 0} → Got T × WQueue T × Bool → System T → System T
taken r s = record s {
  queue = r.1;
  producer = signal_put r.2 s.producer;
  consumer = (after_got r.0 s.got).0;
  got = (after_got r.0 s.got).1;
}

unfoldable pub put_locked : {T : Type 0} → T → System T → System T
put_locked x s = elim (put_start x s.queue) [
  | none ↦ record s { producer = put_waits x }
  | some r ↦ inserted x r s
]

unfoldable pub get_locked : {T : Type 0} → System T → System T
get_locked s = elim (get_start s.queue) [
  | none ↦ record s { consumer = get_waits }
  | some r ↦ taken r s
]

unfoldable pub closed : {T : Type 0} → System T → System T
closed s = record s {
  queue = (close_queue s.queue).0;
  consumer = signal_get (close_queue s.queue).1 s.consumer;
}

-- One producer and one consumer, a signal for each wake-up.
pub data Step {T : Type 0} : System T → System T → Type 0 where
  put_calls :
      (s : System T) (o : Option T) (x : T)
      → s.producer ≡ outside
      → put_enters o s.queue ≡ some x
      → Step s (record s { producer = entered x })
  put_locks : (s : System T) (x : T) → s.producer ≡ entered x → Step s (put_locked x s)
  put_resumes :
      (s : System T) (x : T)
      → s.producer ≡ put_woken x
      → Step s (inserted x (put_insert x s.queue) s)
  get_locks : (s : System T) → s.consumer ≡ ready → Step s (get_locked s)
  get_resumes : (s : System T) → s.consumer ≡ get_woken → Step s (taken (get_take s.queue) s)
  closes : (s : System T) → Step s (closed s)

-- The steps from a new queue on.
pub data Reachable {T : Type 0} (max : ℤ) : System T → Type 0 where
  starts : Reachable max (record {
    queue = new_queue max;
    producer = outside;
    consumer = ready;
    put_log = [];
    got = [];
  })
  goes_on : (s t : System T) → Reachable max s → Step s t → Reachable max t
