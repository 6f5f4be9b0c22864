-- ===== src/Receive/Head/Reply.antt =====
-- What WHead::Run puts on the wire, and the clock bytes of WHead::SetTime.
use Prim.Native.Nat.add
use others.Base.{
  ℕ, zero, suc, ◌+◌, ◌*◌, ◌/◌, ◌%◌, ◌≤◌, ◌<◌, ◌≡◌, ◌≢◌, ◌⊎◌, arith, ap, refl, Bool, true, false,
  length, Bytes, List, [], ◌∷◌, ◌++◌, get_or-set, length-set, get_or, some, replicate,
}
use others.Base.Int.{pos, ◌-ℤ◌}
use others.Receive.Head.Layout.{Endian, big, little, get16, get32}
use others.Receive.Head.Coherence.{IsCoherent, set_handle_id-IsCoherent, set_default-IsCoherent}
use others.Receive.Head.{
  WHead, LocalTime, HcSleep, head_size, no_totalsize_head_size, equipment_id_neptun,
  equipment_id_temip, handle_id_hc_request, handle_id_work_request, handle_id_hc_reply,
  handle_id_work_reply, set_time, bin_bcd, reply_handle, hc_sleep_step, run,
}

reply_handle-IsCoherent :
    (e : Endian) (h : WHead) → IsCoherent e h → IsCoherent e (reply_handle e h).0
unfolding reply_handle
reply_handle-IsCoherent e h c = ground (
  arith,
  set_handle_id-IsCoherent e handle_id_hc_reply h (omega arith) c,
  set_handle_id-IsCoherent e handle_id_work_reply h (omega arith) c,
)

-- Whichever request came in, also an unknown one, a coherent header stays coherent through Run.
pub run-IsCoherent :
    (e : Endian) (now : LocalTime) (has_socket : Bool) (test : HcSleep) (h : WHead)
    → IsCoherent e h
    → IsCoherent e (run e now has_socket test h).head
unfolding run
run-IsCoherent e now true test h c = set_default-IsCoherent e now _ (reply_handle-IsCoherent e h c)
run-IsCoherent e now false test h c = reply_handle-IsCoherent e h c

-- The 32 bytes that Run sends for a request, read as a header.
abbrev pub IsReplyTo : Endian → WHead → Bytes → Type 0
IsReplyTo e h p =
    (length p ≡ head_size)
    × (get16 e p 0 ≡ no_totalsize_head_size)
    × (get16 e p 4 ≡ h.handle_id + 1)
    × (get32 e p 6 ≡ h.reply_id)
    × (get16 e p 10 ≡ 0)
    × (get32 e p 12 ≡ equipment_id_neptun)
    × (get32 e p 16 ≡ equipment_id_temip)
    × (get_or p 20 0 ≡ 0)
    × (get16 e p 28 ≡ 0)
    × (get_or p 30 0 ≡ 0)

-- For a coherent header that is a health check or a work request, with a socket set, Run sends 32
-- bytes that read as a header: the size 30, the handle id of the request plus one, its reply id,
-- the reply kind 0, the two equipment ids, and 0 for the sequence id, the data size and the repeat
-- count.
pub run_replies :
    (e : Endian) (now : LocalTime) (test : HcSleep) (h : WHead)
    → IsCoherent e h
    → (h.handle_id ≡ handle_id_hc_request) ⊎ (h.handle_id ≡ handle_id_work_request)
    → (p : Bytes) × ((run e now true test h).response ≡ some p) × IsReplyTo e h p
unfolding run
run_replies big now test h c k = (_, refl, grind (arith, get_or-set, length-set))
run_replies little now test h c k = (_, refl, grind (arith, get_or-set, length-set))

-- Two decimal digits in the halves of a byte.
abbrev pub from_bcd : ℕ → ℕ
from_bcd b = b / 16 * 10 + b % 16

-- For a year from 2000 to 2099 and fields in their ranges, the bytes 22 to 27 of a header of 32
-- bytes are the year within the century, the month from 1, the day, the hour, the minute and the
-- second, each as two decimal digits.
pub set_time-bcd :
    (t : LocalTime) (h : WHead)
    → length h.bytes ≡ head_size
    → 100 ≤ t.year
    → t.year < 200
    → t.mon < 12
    → t.mday < 32
    → t.hour < 24
    → t.min < 60
    → t.sec < 62
    → let p = (set_time t h).bytes in
      (from_bcd (get_or p 22 0) + 100 ≡ t.year)
      × (from_bcd (get_or p 23 0) ≡ t.mon + 1)
      × (from_bcd (get_or p 24 0) ≡ t.mday)
      × (from_bcd (get_or p 25 0) ≡ t.hour)
      × (from_bcd (get_or p 26 0) ≡ t.min)
      × (from_bcd (get_or p 27 0) ≡ t.sec)
unfolding set_time bin_bcd
set_time-bcd t h full y1 y2 mo d ho mi se = grind (arith, get_or-set, length-set)

-- The needSleep decisions of the next `n` health checks.
pub sleeps : ℕ → HcSleep → List Bool
sleeps zero t = []
sleeps (suc n) t = (hc_sleep_step true t).0 ∷ sleeps n (hc_sleep_step true t).1

used_up : (n : ℕ) (t : HcSleep) → t.hc_sleep_num ≡ pos 0 → sleeps n t ≡ replicate n false
unfolding sleeps hc_sleep_step ◌-ℤ◌
used_up zero t e = refl
used_up (suc n) t e = grind (arith, used_up n t e)

hc_sleep_counts :
    (k : ℕ) (t : HcSleep)
    → t.hc_sleep_num ≡ pos (suc (suc k))
    → t.hc_sleep_time ≢ pos 0
    → hc_sleep_step true t ≡ (false, record t { hc_sleep_num = pos (suc k) })
unfolding hc_sleep_step ◌-ℤ◌
hc_sleep_counts k t e time = ground arith

hc_sleep_last :
    (t : HcSleep)
    → t.hc_sleep_num ≡ pos 1
    → t.hc_sleep_time ≢ pos 0
    → hc_sleep_step true t ≡ (true, record t { hc_sleep_num = pos 0 })
unfolding hc_sleep_step ◌-ℤ◌
hc_sleep_last t e time = ground arith

-- Of health checks in a row, with a sleep time other than 0 and a positive hc_sleep_num, just the
-- one with the number hc_sleep_num is delayed.
pub sleeps_once :
    (k n : ℕ) (t : HcSleep)
    → t.hc_sleep_num ≡ pos (suc k)
    → t.hc_sleep_time ≢ pos 0
    → sleeps (suc k + n) t ≡ replicate k false ++ true ∷ replicate n false
unfolding sleeps
sleeps_once zero n t e time =
    rw add.suc (rw (hc_sleep_last t e time) (rw add.zero (ap (λ bs. true ∷ bs) (used_up n _ refl))))
sleeps_once (suc k) n t e time =
    rw add.suc
      (rw (hc_sleep_counts k t e time) (ap (λ bs. false ∷ bs) (sleeps_once k n _ refl time)))
