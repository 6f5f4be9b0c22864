-- ===== src/Receive/Head.antt =====
-- realworking/src/receive/WHead.cxx and include/WHead.hxx: the 32-byte telegram header, kept twice,
-- as fields and as the bytes that go back on the wire. The class copies words by `memcpy` in the
-- byte order of the host, so the order is a parameter.
pub mod Layout
pub mod Coherence
pub mod Reply
use Layout.{Endian, get16, get32, put8, put16, put32}
use others.Base.{
  ℕ, zero, suc, ◌+◌, ◌-◌, ◌*◌, ◌/◌, ◌%◌, Bool, true, false, not, ◌&&◌, ◌||◌, List, [], ◌∷◌, Option,
  none, some, ◌==◌, if◌then◌else◌, Bytes, take, get_or,
}
use others.Base.Int.{ℤ, pos, ltb_ℤ, eq_ℤ, ◌-ℤ◌}

abbrev pub head_size : ℕ
head_size = 32

-- HEAD_SIZE - sizeof(m_total_size)
abbrev pub no_totalsize_head_size : ℕ
no_totalsize_head_size = 30

abbrev pub handle_id_hc_request : ℕ
handle_id_hc_request = 0x2001

abbrev pub handle_id_hc_reply : ℕ
handle_id_hc_reply = 0x2002

abbrev pub handle_id_work_request : ℕ
handle_id_work_request = 0x2101

abbrev pub handle_id_work_reply : ℕ
handle_id_work_reply = 0x2102

abbrev pub reply_kind_id_end : ℕ
reply_kind_id_end = 0x0000

abbrev pub reply_kind_id_continue : ℕ
reply_kind_id_continue = 0x4000

abbrev pub equipment_id_neptun : ℕ
equipment_id_neptun = 0x00007901

abbrev pub equipment_id_temip : ℕ
equipment_id_temip = 0x00009001

pub record WHead : Type 0 where
  pub total_size : ℕ
  pub handle_id : ℕ
  pub reply_id : ℕ
  pub reply_kind_id : ℕ
  pub destination_id : ℕ
  pub source_id : ℕ
  pub sequence_id : ℕ
  pub data_size : ℕ
  pub repeat_count : ℕ
  pub business_id : ℕ
  pub method_id : ℕ
  pub reserve_1 : ℕ
  pub reserve_2 : ℕ
  pub bytes : Bytes

-- struct tm, as far as it is read
pub record LocalTime : Type 0 where
  pub year : ℕ
  pub mon : ℕ
  pub mday : ℕ
  pub hour : ℕ
  pub min : ℕ
  pub sec : ℕ

-- WHead(void*): every field is copied out of the 32 bytes.
unfoldable pub new_head : Endian → Bytes → WHead
new_head e p = record {
  bytes = take head_size p;
  total_size = get16 e p 0;
  business_id = get_or p 2 0;
  method_id = get_or p 3 0;
  handle_id = get16 e p 4;
  reply_id = get32 e p 6;
  reply_kind_id = get16 e p 10;
  destination_id = get32 e p 12;
  source_id = get32 e p 16;
  sequence_id = get_or p 20 0;
  reserve_1 = get_or p 21 0;
  data_size = get16 e p 28;
  repeat_count = get_or p 30 0;
  reserve_2 = get_or p 31 0;
}

unfoldable pub set_handle_id : Endian → ℕ → WHead → WHead
set_handle_id e id h = record h { handle_id = id; bytes = put16 e h.bytes 4 id }

-- The four assignments of SetSize, each with its memcpy.
unfoldable pub set_size : Endian → WHead → WHead
set_size e h = record h {
  total_size = no_totalsize_head_size;
  data_size = 0;
  repeat_count = 0;
  sequence_id = 0;
  bytes = put8 (put8 (put16 e (put16 e h.bytes 0 no_totalsize_head_size) 28 0) 30 0) 20 0;
}

-- BIN_BCD
unfoldable pub bin_bcd : ℕ → ℕ
bin_bcd val = val / 10 * 16 + val % 10

-- us_time[TIME_LENGTH]: the year is counted from 2000, and each entry is an unsigned char.
unfoldable pub us_time : LocalTime → Bytes
us_time t =
    ((t.year + 256 - 100) % 256)
    ∷ ((t.mon + 1) % 256)
    ∷ (t.mday % 256)
    ∷ (t.hour % 256)
    ∷ (t.min % 256)
    ∷ (t.sec % 256)
    ∷ []

abbrev put_time : Bytes → ℕ → Bytes → Bytes
put_time buf off [] = buf
put_time buf off (c ∷ cs) = put_time (put8 buf off (bin_bcd c % 256)) (suc off) cs

unfoldable pub set_time : LocalTime → WHead → WHead
unfolding us_time
set_time t h = record h { bytes = put_time h.bytes 22 (us_time t) }

unfoldable pub set_default : Endian → LocalTime → WHead → WHead
unfolding set_size set_time
set_default e t h = set_size e (
    set_time t (record h {
      destination_id = equipment_id_neptun;
      source_id = equipment_id_temip;
      reply_kind_id = 0;
      bytes = put16 e (put32 e (put32 e h.bytes 12 equipment_id_neptun) 16 equipment_id_temip) 10 0;
    }))

-- The notices that CheckReplyId sends for a reply id of zero; for other requests it only traces.
pub data ReplyIdNotice : Type 0 where
  no_notice hc_reply_id_error work_reply_id_error : ReplyIdNotice

unfoldable pub check_reply_id : WHead → ReplyIdNotice
check_reply_id h =
    if h.reply_id == 0
    then (if h.handle_id == handle_id_hc_request
        then hc_reply_id_error
        else if h.handle_id == handle_id_work_request
        then work_reply_id_error
        else no_notice)
    else no_notice

-- The counters of WTest that Run reads and counts down.
pub record HcSleep : Type 0 where
  pub hc_sleep_time : ℤ
  pub hc_sleep_num : ℤ

-- What Run does: the sleep taken, and the 32 bytes handed to WriteResponse.
pub record RunResult : Type 0 where
  pub head : WHead
  pub test : HcSleep
  pub id_error : Bool
  pub slept : Option ℤ
  pub response : Option Bytes

-- The first half of Run: the reply's handle id, and whether it was a health check.
unfoldable pub reply_handle : Endian → WHead → WHead × Bool × Bool
unfolding set_handle_id
reply_handle e h =
    if h.handle_id == handle_id_hc_request
    then (set_handle_id e handle_id_hc_reply h, true, false)
    else if h.handle_id == handle_id_work_request
    then (set_handle_id e handle_id_work_reply h, false, false)
    else (h, false, true)

-- The counting down of the sleep tests; the flag is needSleep.
unfoldable pub hc_sleep_step : Bool → HcSleep → Bool × HcSleep
unfolding ◌-ℤ◌
hc_sleep_step need t =
    if not need || eq_ℤ t.hc_sleep_time (pos 0) || ltb_ℤ t.hc_sleep_num (pos 1)
    then (false, t)
    else if ltb_ℤ (pos 1) t.hc_sleep_num
    then (false, record t { hc_sleep_num = t.hc_sleep_num -ℤ pos 1 })
    else (true, record t { hc_sleep_num = t.hc_sleep_num -ℤ pos 1 })

-- WHead::Run; the flag says whether WApp::m_pSocket is set.
unfoldable pub run : Endian → LocalTime → Bool → HcSleep → WHead → RunResult
unfolding reply_handle hc_sleep_step set_default
run e now has_socket test h =
    let (h', need, bad) = reply_handle e h in
    let h'' = set_default e now h' in
    let (sleeps, test') = hc_sleep_step need test in
    if has_socket
    then record {
      head = h'';
      test = test';
      id_error = bad;
      slept = if sleeps then some test.hc_sleep_time else none;
      response = some h''.bytes;
    }
    else record { head = h'; test = test; id_error = bad; slept = none; response = none }
