-- ===== src/Receive/Work.antt =====
-- One piece of work (WSaxXml::Run and SendReponse in receive/WSaxXml.cxx): the text is repaired and
-- parsed, and the telegram is answered. The parser is code outside the repository: `xerces` gives
-- its calls of the handler for the text at a pointer and a number of bytes.
pub mod Answer
use others.Base.{
  ℕ, Bool, true, false, not, ◌||◌, if◌then◌else◌, List, [], Option, none, some, Bytes, length,
}
use others.Base.Int.{ℤ, pos, ltb_ℤ, eq_ℤ, ◌-ℤ◌}
use others.Receive.FixChar.{fix_char}
use others.Receive.Head.{WHead, LocalTime, handle_id_work_reply, set_handle_id, set_default}
use others.Receive.Head.Layout.{Endian}
use others.Receive.Sax.{Event, Notice, parse}

-- The calls that the parser makes, up to the end of the document or to its exception.
pub record Parsed : Type 0 where
  pub events : List Event
  pub complete : Bool

-- The counters of WTest that SendReponse reads and counts down.
pub record WorkSleep : Type 0 where
  pub work_sleep_time : ℤ
  pub work_sleep_num : ℤ

-- needSleep, and the counters afterwards
unfoldable pub work_sleep_step : WorkSleep → Bool × WorkSleep
work_sleep_step t =
    if eq_ℤ t.work_sleep_time (pos 0) || ltb_ℤ t.work_sleep_num (pos 1)
    then (false, t)
    else if ltb_ℤ (pos 1) t.work_sleep_num
    then (false, record t { work_sleep_num = t.work_sleep_num -ℤ pos 1 })
    else (true, record t { work_sleep_num = t.work_sleep_num -ℤ pos 1 })

-- What a piece of work leads to: what the other threads are told, the sleep, the counters, and the
-- header given to WriteResponse.
pub record WorkResult : Type 0 where
  pub told : List Notice
  pub slept : Option ℤ
  pub test : WorkSleep
  pub head : WHead

-- SendReponse
unfoldable pub send_response : Endian → LocalTime → List Notice → WorkSleep → WHead → WorkResult
send_response e now told test h =
    let (sleeps, test') = work_sleep_step test in
    record {
      told = told;
      slept = if sleeps then some test.work_sleep_time else none;
      test = test';
      head = set_default e now (set_handle_id e handle_id_work_reply h);
    }

-- What the handler does in the parse: its effects come at the end of the document. The socket may
-- have been lost by then.
unfoldable pub parse_given : Bool → Parsed → List Notice
parse_given connected d = if d.complete then parse connected d.events else []

-- WSaxXml::Run; whether the socket is connected is asked before the parse, and at its end.
unfoldable pub run_work :
    (Bytes → ℕ → Parsed) → Endian → LocalTime → Bool → Bool → WorkSleep → Bytes → WHead → WorkResult
run_work xerces e now connected still test source h =
    let xml_len = length source in
    let told = if connected then parse_given still (xerces (fix_char source) xml_len) else [] in
    send_response e now told test h
