-- ===== src/Receive/Tests/Wire.antt =====
-- Characters, headers and telegrams.
use others.Base.{
  List, inl, inr, ℕ, ◌≡◌, refl, inr, arith, true, false, [], ◌∷◌, ◌++◌, some, Bytes, codes, length,
  replicate,
}
use others.Base.Int.{pos}
use others.Receive.Coder.{
  Char, single, double, IsText, bytes_of, moved, check_chars, check_chars-move,
}
use others.Receive.FixChar.{
  c_string, done, fix_char, fix_end, is_fixed_pair, is_pair, single, Repairs,
}
use others.Receive.FixChar.Outcome.{fix_char-Repairs, terminator_out_of_bounds}
use others.Receive.Work.{Parsed, WorkSleep, run_work}
use others.Receive.Work.Answer.{run_work_answers}
use others.Receive.Head.Layout.{big}
use others.Receive.Head.Coherence.{IsCoherent}
use others.Receive.Head.Reply.{IsReplyTo, run_replies}
use others.Receive.Head.{
  LocalTime, HcSleep, WHead, new_head, run, handle_id_work_request, reply_kind_id_continue,
  reply_kind_id_end,
}
use others.Receive.Socket.{Arrival, WSocket}
use others.Receive.Socket.Telegrams.{
  IsTelegram, IsDelivered, head_of, nothing_yet, part, read_turns, read_turns-delivers,
}

abbrev three_characters : List Char
three_characters = double 0xf2 0xa1 ∷ single 65 ∷ double 0xf5 0xf0 ∷ []

three_characters-IsText : IsText three_characters
unfolding IsText
three_characters-IsText = (
  (inr (omega arith), λ e. omega (arith, e)),
  omega arith,
  (inl (omega arith, omega arith), ((inr (omega arith), λ e. omega (arith, e)), omega arith, tt)),
)

check_chars-move_example :
    check_chars (0xf2 ∷ 0xa1 ∷ 65 ∷ 0xf5 ∷ 0xf0 ∷ []) ≡ 0xed ∷ 0xa1 ∷ 65 ∷ 0xf5 ∷ 0xf0 ∷ []
unfolding bytes_of moved
check_chars-move_example = check_chars-move three_characters three_characters-IsText

plain_repair : Repairs (65 ∷ 66 ∷ []) (65 ∷ 66 ∷ []) false false
unfolding is_pair
plain_repair = single refl refl (single refl refl done)

fix_char-Repairs_example : fix_char (65 ∷ 66 ∷ []) ≡ 65 ∷ 66 ∷ []
fix_char-Repairs_example = fix_char-Repairs plain_repair (λ e. omega arith, (λ e. omega arith, tt))

pair_ad : is_pair 0xad ≡ true
unfolding is_pair
pair_ad = refl

fixed_ad : is_fixed_pair 0xad ≡ true
unfolding is_fixed_pair
fixed_ad = refl

terminator_out_of_bounds_example :
    ((fix_end (65 ∷ 0xad ∷ [])).fixed ≡ true)
    × ((fix_end (65 ∷ 0xad ∷ [])).j ≡ length (fix_end (65 ∷ 0xad ∷ [])).buffer)
terminator_out_of_bounds_example =
    terminator_out_of_bounds (65 ∷ []) 0xad (omega arith, tt) pair_ad fixed_ad

abbrev noon : LocalTime
noon = record { year = 109; mon = 0; mday = 4; hour = 12; min = 34; sec = 56 }

-- A work request with 2 bytes of data, to be continued or not.
abbrev work_head : ℕ → Bytes
work_head kind = 0 ∷ 32 ∷ 0 ∷ 0 ∷ 0x21 ∷ 0x01 ∷ 0 ∷ 0 ∷ 0 ∷ 1 ∷ kind ∷ 0 ∷ replicate 20 0

abbrev work_request : WHead
work_request = new_head big (work_head 0)

work_request-IsCoherent : IsCoherent big work_request
unfolding new_head
work_request-IsCoherent = record {
  full = refl;
  total_size = refl;
  business_id = refl;
  method_id = refl;
  handle_id = refl;
  reply_id = refl;
  reply_kind_id = refl;
  destination_id = refl;
  source_id = refl;
  sequence_id = refl;
  reserve_1 = refl;
  data_size = refl;
  repeat_count = refl;
  reserve_2 = refl;
}

work_request-id : work_request.handle_id ≡ handle_id_work_request
unfolding new_head
work_request-id = refl

abbrev no_sleep : HcSleep
no_sleep = record { hc_sleep_time = pos 0; hc_sleep_num = pos 0 }

run_replies_example :
    (p : Bytes) × ((run big noon true no_sleep work_request).response ≡ some p)
    × IsReplyTo big work_request p
run_replies_example =
    run_replies big noon no_sleep work_request work_request-IsCoherent (inr work_request-id)

abbrev first_part : Arrival
first_part = record { head_read = work_head 64; data_read = 60 ∷ 61 ∷ [] }

abbrev last_part : Arrival
last_part = record { head_read = work_head 0; data_read = 62 ∷ 63 ∷ [] }

first_part-IsTelegram : IsTelegram big handle_id_work_request first_part
unfolding new_head
first_part-IsTelegram = (refl, refl, omega arith, refl)

last_part-IsTelegram : IsTelegram big handle_id_work_request last_part
unfolding new_head
last_part-IsTelegram = (refl, refl, omega arith, refl)

first_part-continues : (head_of big first_part).reply_kind_id ≡ reply_kind_id_continue
unfolding new_head
first_part-continues = refl

last_part-ends : (head_of big last_part).reply_kind_id ≡ reply_kind_id_end
unfolding new_head
last_part-ends = refl

abbrev fresh_socket : WSocket
fresh_socket = record {
  connected = true;
  start = true;
  interrupt = false;
  hc_count = 0;
  work_count = 0;
  error_count = 0;
}

read_turns-delivers_example :
    IsDelivered
      (read_turns big
        (first_part ∷ last_part ∷ [])
        (record { socket = fresh_socket; xml_buff = [] })
        [])
      (c_string ((c_string (60 ∷ 61 ∷ []) ++ []) ++ c_string (62 ∷ 63 ∷ [])) ∷ [])
read_turns-delivers_example =
    read_turns-delivers big (first_part ∷ []) last_part (c_string (60 ∷ 61 ∷ []) ++ []) fresh_socket
      (part first_part [] [] first_part-IsTelegram first_part-continues nothing_yet)
      last_part-IsTelegram last_part-ends

abbrev no_parse : Bytes → ℕ → Parsed
no_parse text n = record { events = []; complete = false }

abbrev no_work_sleep : WorkSleep
no_work_sleep = record { work_sleep_time = pos 0; work_sleep_num = pos 0 }

run_work_answers_example :
    IsReplyTo big work_request
      (run_work no_parse big noon true false no_work_sleep (codes "<a>") work_request).head.bytes
run_work_answers_example =
    run_work_answers no_parse big noon true false no_work_sleep (codes "<a>") work_request
      work_request-IsCoherent work_request-id
