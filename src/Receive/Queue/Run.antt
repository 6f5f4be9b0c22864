-- ===== src/Receive/Queue/Run.antt =====
-- One producer and one consumer on a WQueue: order, bounds, wake-ups.
use others.Base.{
  ℕ, ◌≤◌, ◌<◌, ◌≡◌, ◌≢◌, ◌⊎◌, inl, inr, arith, refl, ap, subst, ◌∙◌, Bool, true, false, List, [],
  ◌∷◌, ◌++◌, length, length-append, none, some, append_assoc,
}
use others.Base.Int.{ℤ, pos, negsuc, ◌+ℤ◌, ◌-ℤ◌}
use others.Receive.Queue.{
  WQueue, new_queue, put_insert, put_start, get_take, get_start, close_queue, Producer, outside,
  entered, put_waits, put_woken, Consumer, ready, get_waits, get_woken, ended, broken, System,
  signal_get, signal_put, inserted, after_got, taken, put_locked, get_locked, closed, Step,
  put_calls, put_locks, put_resumes, get_locks, get_resumes, closes, Reachable, starts, goes_on,
}

-- The producer waits only at a full queue, and is woken only when there is room.
abbrev pub IsProducerOk : {T : Type 0} → ℕ → WQueue T → Producer T → Type 0
IsProducerOk m q outside = 0 ≤ m
IsProducerOk m q (entered x) = 0 ≤ m
IsProducerOk m q (put_waits x) = (1 ≤ m) × (length q.items ≡ m)
IsProducerOk m q (put_woken x) = length q.items < m

-- The consumer waits only at an empty open queue, and is woken only when there is an item or the
-- queue is closed; it ends only at an empty closed one, and never takes from an empty list.
abbrev pub IsConsumerOk : {T : Type 0} → WQueue T → Consumer → Type 0
IsConsumerOk q ready = 0 ≤ length q.items
IsConsumerOk q get_waits = (length q.items ≡ 0) × (q.close ≡ false)
IsConsumerOk q get_woken = (1 ≤ length q.items) ⊎ (q.close ≡ true)
IsConsumerOk q ended = q.close ≡ true
IsConsumerOk q broken = 1 ≤ 0

abbrev pub IsQueueOk : {T : Type 0} → ℕ → WQueue T → Type 0
IsQueueOk m q = (q.max ≡ pos m) × (q.num ≡ pos (length q.items)) × ((m ≡ 0) ⊎ (length q.items ≤ m))

-- The state of the queue and of both threads, and the order of the items.
abbrev pub IsOk : {T : Type 0} → ℕ → System T → Type 0
IsOk m s =
    IsQueueOk m s.queue
    × IsProducerOk m s.queue s.producer
    × IsConsumerOk s.queue s.consumer
    × (s.put_log ≡ s.got ++ s.queue.items)

put_insert-Ok :
    {T : Type 0} (m : ℕ) (x : T) (q : WQueue T)
    → IsQueueOk m q
    → (m ≡ 0) ⊎ (length q.items < m)
    → IsQueueOk m (put_insert x q).0
unfolding put_insert ◌+ℤ◌
put_insert-Ok m x q ok room = ground (arith, length-append q.items (x ∷ []))

abbrev CanTake : {T : Type 0} → WQueue T → Type 0
CanTake q = (1 ≤ length q.items) ⊎ (q.close ≡ true)

-- The parts of a queue one by one, to split on its items.
abbrev parts : {T : Type 0} → List T → ℤ → ℤ → Bool → WQueue T
parts items num max close = record { items = items; num = num; max = max; close = close }

take_parts :
    {T : Type 0} (m : ℕ) (xs : List T) (num max : ℤ) (close : Bool) (p : Producer T)
    → IsQueueOk m (parts xs num max close)
    → IsProducerOk m (parts xs num max close) p
    → CanTake (parts xs num max close)
    → let r = get_take (parts xs num max close) in
      IsQueueOk m r.1 × IsProducerOk m r.1 (signal_put r.2 p)
unfolding get_take signal_put ◌-ℤ◌
take_parts m [] n a c outside ok pok can = ground arith
take_parts m [] n a c (entered y) ok pok can = ground arith
take_parts m [] n a c (put_waits y) ok pok can = ground arith
take_parts m [] n a c (put_woken y) ok pok can = ground arith
take_parts m (x ∷ xs) n a c outside ok pok can = ground arith
take_parts m (x ∷ xs) n a c (entered y) ok pok can = ground arith
take_parts m (x ∷ xs) n a c (put_waits y) ok pok can = ground arith
take_parts m (x ∷ xs) n a c (put_woken y) ok pok can = ground arith

taken_parts :
    {T : Type 0} (m : ℕ) (xs : List T) (num max : ℤ) (close : Bool) (got : List T)
    → IsQueueOk m (parts xs num max close)
    → CanTake (parts xs num max close)
    → let r = get_take (parts xs num max close) in
      IsConsumerOk r.1 (after_got r.0 got).0 × (got ++ xs ≡ (after_got r.0 got).1 ++ r.1.items)
unfolding get_take after_got ◌-ℤ◌
taken_parts m [] n a c g ok can = ground arith
taken_parts m (x ∷ xs) n a c g ok can = ground (arith, append_assoc g (x ∷ []) xs)

taken-Ok :
    {T : Type 0} (m : ℕ) (s : System T)
    → IsOk m s
    → CanTake s.queue
    → IsOk m (taken (get_take s.queue) s)
unfolding taken
taken-Ok m s (ok, pok, cok, order) can =
    let q = s.queue in
    let (l, r) = take_parts m q.items q.num q.max q.close s.producer ok pok can in
    let (c, o) = taken_parts m q.items q.num q.max q.close s.got ok can in (l, r, c, order ∙ o)

consumer_after_put :
    {T : Type 0} (x : T) (q : WQueue T) (c : Consumer)
    → q.num ≡ pos (length q.items)
    → IsConsumerOk q c
    → IsConsumerOk (put_insert x q).0 (signal_get (put_insert x q).1 c)
unfolding put_insert signal_get ◌+ℤ◌
consumer_after_put x q ready n ok = ground arith
consumer_after_put x q get_waits n ok = ground (arith, length-append q.items (x ∷ []))
consumer_after_put x q get_woken n ok = ground (arith, length-append q.items (x ∷ []))
consumer_after_put x q ended n ok = ground arith
consumer_after_put x q broken n ok = ground arith

order_after_put :
    {T : Type 0} (x : T) (q : WQueue T) (log got : List T)
    → log ≡ got ++ q.items
    → log ++ x ∷ [] ≡ got ++ (put_insert x q).0.items
unfolding put_insert
order_after_put x q log got e = ap (λ l. l ++ x ∷ []) e ∙ append_assoc got q.items (x ∷ [])

inserted-Ok :
    {T : Type 0} (m : ℕ) (x : T) (s : System T)
    → IsOk m s
    → (m ≡ 0) ⊎ (length s.queue.items < m)
    → IsOk m (inserted x (put_insert x s.queue) s)
unfolding inserted
inserted-Ok m x s (ok, pok, cok, order) room = (
  put_insert-Ok m x s.queue ok room,
  omega arith,
  consumer_after_put x s.queue s.consumer ok.1 cok,
  order_after_put x s.queue s.put_log s.got order,
)

-- Each call of Put either finds room or waits at a full queue.
put_start-cases :
    {T : Type 0} (m : ℕ) (x : T) (q : WQueue T)
    → IsQueueOk m q
    → ((put_start x q ≡ none) × (1 ≤ m) × (length q.items ≡ m))
      ⊎ ((put_start x q ≡ some (put_insert x q)) × ((m ≡ 0) ⊎ (length q.items < m)))
unfolding put_start
put_start-cases m x q ok = ground arith

get_start-cases :
    {T : Type 0} (m : ℕ) (q : WQueue T)
    → IsQueueOk m q
    → ((get_start q ≡ none) × (length q.items ≡ 0) × (q.close ≡ false))
      ⊎ ((get_start q ≡ some (get_take q)) × CanTake q)
unfolding get_start
get_start-cases m q ok = ground arith

put_locked-Ok : {T : Type 0} (m : ℕ) (x : T) (s : System T) → IsOk m s → IsOk m (put_locked x s)
unfolding put_locked
put_locked-Ok m x s ok = elim (put_start-cases m x s.queue ok.0) [
  | inl h ↦ rw (h.0, put_locked) (ok.0, (h.1, h.2), ok.2, ok.3)
  | inr h ↦ rw (h.0, put_locked) (inserted-Ok m x s ok h.1)
]

get_locked-Ok : {T : Type 0} (m : ℕ) (s : System T) → IsOk m s → IsOk m (get_locked s)
unfolding get_locked
get_locked-Ok m s ok = elim (get_start-cases m s.queue ok.0) [
  | inl h ↦ rw (h.0, get_locked) (ok.0, ok.1, (h.1, h.2), ok.3)
  | inr h ↦ rw (h.0, get_locked) (taken-Ok m s ok h.1)
]

consumer_after_close :
    {T : Type 0} (q : WQueue T) (c : Consumer)
    → q.num ≡ pos (length q.items)
    → IsConsumerOk q c
    → IsConsumerOk (close_queue q).0 (signal_get (close_queue q).1 c)
unfolding close_queue signal_get
consumer_after_close q ready n ok = ground arith
consumer_after_close q get_waits n ok = ground arith
consumer_after_close q get_woken n ok = ground arith
consumer_after_close q ended n ok = ground arith
consumer_after_close q broken n ok = ground arith

producer_after_close :
    {T : Type 0} (m : ℕ) (q : WQueue T) (p : Producer T)
    → IsProducerOk m q p
    → IsProducerOk m (close_queue q).0 p
unfolding close_queue
producer_after_close m q outside ok = ok
producer_after_close m q (entered x) ok = ok
producer_after_close m q (put_waits x) ok = ok
producer_after_close m q (put_woken x) ok = ok

closed-Ok : {T : Type 0} (m : ℕ) (s : System T) → IsOk m s → IsOk m (closed s)
unfolding closed close_queue
closed-Ok m s (ok, pok, cok, order) = (
  ok,
  producer_after_close m s.queue s.producer pok,
  consumer_after_close s.queue s.consumer ok.1 cok,
  order,
)

-- Every step of either thread keeps the state of the queue and of both threads in order.
pub Step-IsOk : {T : Type 0} (m : ℕ) (s t : System T) → Step s t → IsOk m s → IsOk m t
Step-IsOk m s t (put_calls _ o x p e) (ok, pok, cok, order) = (ok, omega arith, cok, order)
Step-IsOk m s t (put_locks _ x p) ok = put_locked-Ok m x s ok
Step-IsOk m s t (put_resumes _ x p) ok =
    inserted-Ok m x s ok (inr (subst (IsProducerOk m s.queue) p ok.1))
Step-IsOk m s t (get_locks _ c) ok = get_locked-Ok m s ok
Step-IsOk m s t (get_resumes _ c) ok = taken-Ok m s ok (subst (IsConsumerOk s.queue) c ok.2)
Step-IsOk m s t (closes _) ok = closed-Ok m s ok

pub Reachable-IsOk : {T : Type 0} (m : ℕ) (s : System T) → Reachable (pos m) s → IsOk m s
unfolding new_queue
Reachable-IsOk m s starts = ((refl, refl, omega arith), omega arith, omega arith, refl)
Reachable-IsOk m s (goes_on t _ r step) = Step-IsOk m t s step (Reachable-IsOk m t r)

none_below : 1 ≤ 0 → ⊥
none_below h = omega arith

-- With one producer and one consumer and no wake-up without a signal, the items taken are the
-- first ones inserted, in order, and the others are in the queue.
pub Reachable-order :
    {T : Type 0} (m : ℕ) (s : System T) → Reachable (pos m) s → s.put_log ≡ s.got ++ s.queue.items
Reachable-order m s r = (Reachable-IsOk m s r).3

-- With one producer, one consumer and no wake-up without a signal, m_num is the number of items, at
-- most m_max if that is not 0, and Get never takes from an empty list.
pub Reachable-bounds :
    {T : Type 0} (m : ℕ) (s : System T)
    → Reachable (pos m) s
    → (s.queue.num ≡ pos (length s.queue.items))
      × ((m ≡ 0) ⊎ (length s.queue.items ≤ m))
      × (s.consumer ≢ broken)
Reachable-bounds m s r =
    let ok = Reachable-IsOk m s r in
    (ok.0.1, ok.0.2, λ b. none_below (subst (IsConsumerOk s.queue) b ok.2))

-- With one producer, one consumer and no wake-up without a signal, the two threads never wait at
-- the same time.
pub Reachable-not_both_wait :
    {T : Type 0} (m : ℕ) (s : System T) (x : T)
    → Reachable (pos m) s
    → s.consumer ≡ get_waits
    → s.producer ≢ put_waits x
Reachable-not_both_wait m s x r c p =
    let ok = Reachable-IsOk m s r in
    both (subst (IsProducerOk m s.queue) p ok.1) (subst (IsConsumerOk s.queue) c ok.2)
  where
    both : IsProducerOk m s.queue (put_waits x) → IsConsumerOk s.queue get_waits → ⊥
    both a b = omega arith

-- With one producer, one consumer and no wake-up without a signal: when the producer waits and the
-- consumer is before Get, this Get wakes the producer.
pub get-wakes_put :
    {T : Type 0} (m : ℕ) (s : System T) (x : T)
    → Reachable (pos m) s
    → s.producer ≡ put_waits x
    → s.consumer ≡ ready
    → (get_locked s).producer ≡ put_woken x
unfolding get_locked get_start get_take taken signal_put ◌-ℤ◌
get-wakes_put m s x r p c =
    let ok = Reachable-IsOk m s r in
    let full = subst (IsProducerOk m s.queue) p ok.1 in let state = ok.0 in ground arith

-- With one producer, one consumer and no wake-up without a signal: when the consumer waits and the
-- producer is past the first test of Put, this Put wakes the consumer.
pub put-wakes_get :
    {T : Type 0} (m : ℕ) (s : System T) (x : T)
    → Reachable (pos m) s
    → s.producer ≡ entered x
    → s.consumer ≡ get_waits
    → (put_locked x s).consumer ≡ get_woken
unfolding put_locked put_start put_insert inserted signal_get ◌+ℤ◌
put-wakes_get m s x r p c =
    let ok = Reachable-IsOk m s r in
    let empty = subst (IsConsumerOk s.queue) c ok.2 in let state = ok.0 in ground arith

empty_take :
    {T : Type 0} (xs : List T) (num max : ℤ) (close : Bool) (got : List T)
    → (length xs ≡ 0) × (close ≡ false)
    → num ≡ pos (length xs)
    → let t = get_take (parts xs num max close) in
      ((after_got t.0 got).0 ≡ broken) × (t.1.num ≡ negsuc 0)
unfolding get_take after_got ◌-ℤ◌
empty_take [] num max close got h e = ground arith
empty_take (x ∷ xs) num max close got h e = ground arith

-- The waits stand under `if`, not under `while`: when the consumer waits, and its pthread_cond_wait
-- returns without a signal, Get takes from the empty list and leaves m_num at -1.
pub get-spurious :
    {T : Type 0} (m : ℕ) (s : System T)
    → Reachable (pos m) s
    → s.consumer ≡ get_waits
    → let t = taken (get_take s.queue) s in (t.consumer ≡ broken) × (t.queue.num ≡ negsuc 0)
unfolding taken
get-spurious m s r c =
    let ok = Reachable-IsOk m s r in
    let q = s.queue in
    empty_take q.items q.num q.max q.close s.got (subst (IsConsumerOk q) c ok.2) ok.0.1
