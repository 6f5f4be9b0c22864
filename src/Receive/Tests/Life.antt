-- ===== src/Receive/Tests/Life.antt =====
-- The theorems on the life of the receiving process, at concrete inputs.
use others.Base.{◌≡◌, refl, arith, true, ◌+◌, ◌<◌, [], ◌∷◌, ◌++◌, replicate}
use others.Receive.HcCheck.{HcCheckThread, hc_check, waits, new_thread}
use others.Receive.HcCheck.Alarms.{Steps, drain, drain-alarms, false_alarm}
use others.Receive.Main.{Course, fails, all_made}

-- Two checks are pending at the time 9, and none has come in the 5 seconds before it.
abbrev overdue : HcCheckThread
overdue = record (new_thread 5) { connected = true; now = 9; events = hc_check ∷ hc_check ∷ [] }

drain-alarms_example :
    Steps overdue (drain (hc_check ∷ hc_check ∷ []) overdue)
    × ((drain (hc_check ∷ hc_check ∷ []) overdue).alarms ≡ [] ++ replicate 2 9)
unfolding new_thread
drain-alarms_example = drain-alarms (hc_check ∷ hc_check ∷ []) overdue (ground arith) refl

-- The thread waits up to the time 7, and it is 4.
abbrev waiting : HcCheckThread
waiting = record (new_thread 5) {
  m_lock = true;
  last_hc_time = 2;
  place = waits 7;
  now = 4;
  connected = true;
}

false_alarm_example :
    (u : HcCheckThread) × Steps waiting u
    × (u.alarms ≡ [] ++ u.now ∷ [])
    × (u.last_hc_time ≡ 4)
    × (u.now < u.last_hc_time + u.m_timeout)
unfolding new_thread
false_alarm_example = false_alarm waiting 3 refl (omega arith) refl

-- The socket cannot be opened.
abbrev no_socket : Course
no_socket = record { argc = 2; configured = true; making = all_made; connection = fails }
