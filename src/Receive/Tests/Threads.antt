-- ===== src/Receive/Tests/Threads.antt =====
-- A queue of one place between two threads.
use others.Base.{ℕ, ◌≡◌, ◌≢◌, ◌≤◌, ◌⊎◌, refl, [], ◌++◌, some, length}
use others.Base.Int.{pos, ◌+ℤ◌}
use others.Receive.Queue.{
  System, broken, entered, get_locked, get_locks, get_waits, get_woken, goes_on, new_queue, outside,
  put_calls, put_locked, put_locks, put_waits, put_woken, put_enters, Reachable, ready, starts,
  put_start, put_insert, inserted, signal_get, get_start,
}
use others.Receive.Queue.Run.{Reachable-order, Reachable-bounds, get-wakes_put, put-wakes_get}

abbrev s0 : System ℕ
s0 = record {
  queue = new_queue (pos 1);
  producer = outside;
  consumer = ready;
  put_log = [];
  got = [];
}

-- The producer puts one item, and waits with a second one.
abbrev s1 : System ℕ
s1 = record s0 { producer = entered 5 }

abbrev s2 : System ℕ
s2 = put_locked 5 s1

abbrev s3 : System ℕ
s3 = record s2 { producer = entered 6 }

abbrev s4 : System ℕ
s4 = put_locked 6 s3

s1-Reachable : Reachable (pos 1) s1
unfolding put_enters new_queue
s1-Reachable = goes_on s0 s1 starts (put_calls s0 (some 5) 5 refl refl)

s2-Reachable : Reachable (pos 1) s2
s2-Reachable = goes_on s1 s2 s1-Reachable (put_locks s1 5 refl)

s2-outside : (s2.producer ≡ outside) × (put_enters (some 6) s2.queue ≡ some 6)
unfolding put_locked put_start put_insert inserted put_enters new_queue
s2-outside = (refl, refl)

s3-Reachable : Reachable (pos 1) s3
s3-Reachable = goes_on s2 s3 s2-Reachable (put_calls s2 (some 6) 6 s2-outside.0 s2-outside.1)

s4-Reachable : Reachable (pos 1) s4
s4-Reachable = goes_on s3 s4 s3-Reachable (put_locks s3 6 refl)

s4-waits : (s4.producer ≡ put_waits 6) × (s4.consumer ≡ ready)
unfolding put_locked put_start put_insert inserted signal_get new_queue ◌+ℤ◌
s4-waits = (refl, refl)

Reachable-order_example : s4.put_log ≡ s4.got ++ s4.queue.items
Reachable-order_example = Reachable-order 1 s4 s4-Reachable

abbrev one : ℕ
one = 1

Reachable-bounds_example :
    (s4.queue.num ≡ pos (length s4.queue.items))
    × ((one ≡ 0) ⊎ (length s4.queue.items ≤ 1))
    × (s4.consumer ≢ broken)
Reachable-bounds_example = Reachable-bounds 1 s4 s4-Reachable

get-wakes_put_example : (get_locked s4).producer ≡ put_woken 6
get-wakes_put_example = get-wakes_put 1 s4 6 s4-Reachable s4-waits.0 s4-waits.1

-- The consumer waits at the empty queue.
abbrev t1 : System ℕ
t1 = get_locked s0

abbrev t2 : System ℕ
t2 = record t1 { producer = entered 5 }

t1-Reachable : Reachable (pos 1) t1
t1-Reachable = goes_on s0 t1 starts (get_locks s0 refl)

t1-waits :
    (t1.consumer ≡ get_waits) × (t1.producer ≡ outside) × (put_enters (some 5) t1.queue ≡ some 5)
unfolding get_locked get_start put_enters new_queue
t1-waits = (refl, refl, refl)

t2-Reachable : Reachable (pos 1) t2
t2-Reachable = goes_on t1 t2 t1-Reachable (put_calls t1 (some 5) 5 t1-waits.1 t1-waits.2)

put-wakes_get_example : (put_locked 5 t2).consumer ≡ get_woken
put-wakes_get_example = put-wakes_get 1 t2 5 t2-Reachable refl t1-waits.0
