-- ===== src/Receive/Socket.antt =====
-- The connection with the sender of the telegrams: receive/WSocket.cxx. The results of read, write,
-- select, accept and of the signal flags are arguments; the notices to the other threads are values.
pub mod Stream
pub mod Telegrams
use others.Base.{
  ℕ, suc, zero, ◌+◌, ◌-◌, ◌≡◌, Bool, true, false, not, ◌&&◌, ◌||◌, ◌==◌, if◌then◌else◌, List, [],
  ◌∷◌, ◌++◌, length, Option, none, some, Bytes, is_empty, replicate, ltb, leb,
}
use others.Base.Int.{ℤ, pos, negsuc, ◌-ℤ◌, eq_ℤ, ltb_ℤ}
use others.Receive.FixChar.{c_string}
use others.Receive.Head.Layout.{Endian}
use others.Receive.Head.{
  WHead, ReplyIdNotice, head_size, no_totalsize_head_size, handle_id_hc_request,
  handle_id_work_request, reply_kind_id_end, reply_kind_id_continue, new_head, check_reply_id,
}

-- The fields of WSocket that its operations change.
pub record WSocket : Type 0 where
  pub connected : Bool
  pub start : Bool
  pub interrupt : Bool
  pub hc_count : ℕ
  pub work_count : ℕ
  pub error_count : ℕ

-- What the socket hands to the other threads and to the operator.
pub data Sent : Type 0 where
  to_hc : WHead → Sent
  hc_check : Sent
  hc_stop : Sent
  work_xml : Bytes → WHead → Sent
  reply_id : ReplyIdNotice → Sent
  handle_id_error : Sent
  connection_setup : Sent
  connection_broken : Sent

-- get_term_signal, get_stop_signal, and IsEnd of the work thread.
pub record Signals : Type 0 where
  pub term : ℕ
  pub stop : ℕ
  pub work_end : Bool

-- What CheckSignal does: nothing, Cancel of the work thread, or Disconnect and a WException.
pub data Checked : Type 0 where
  go_on : Checked
  cancel_work : Checked
  stop_work : Checked

unfoldable pub check_signal : Signals → Signals × Checked
check_signal g =
    if g.term == 1
    then (record g { term = 2 }, cancel_work)
    else if g.stop == 1
    then (if g.work_end then (record g { stop = 2 }, stop_work) else (g, go_on))
    else if g.work_end
    then (record g { stop = 2 }, stop_work)
    else (g, go_on)

-- Disconnect
unfoldable pub disconnect : WSocket → WSocket × List Sent
disconnect s =
    if s.connected
    then (record s { connected = false }, hc_stop ∷ connection_broken ∷ [])
    else (s, [])

-- How accept ends, with get_term_signal after an interruption.
pub data Accept : Type 0 where
  accepted : Accept
  interrupted : ℕ → Accept
  refused : Accept

-- Connect, given get_term_signal before it; the flag says that it throws.
unfoldable pub connect : ℕ → Accept → WSocket → WSocket × List Sent × Bool
connect term a s = if term == 1 then (record s { interrupt = true }, [], true) else (elim a [
  | accepted ↦ (
    record s { connected = true; start = true; hc_count = 0; work_count = 0; error_count = 0 },
    connection_setup ∷ hc_check ∷ [],
    false,
  )
  | interrupted t ↦ if t == 1 then (record s { interrupt = true }, [], true) else (s, [], false)
  | refused ↦ (s, [], true)
])

-- How one call of read or write ends: with bytes moved, interrupted (with what CheckSignal does
-- then), or failed.
pub data Io : Type 0 where
  moved : Bytes → Io
  eintr : Checked → Io
  failed : Io

-- How Readn and Writen end: with the bytes moved, with -1, or with the exception of CheckSignal.
-- `blocked` is a call that still waits when the list of results ends.
pub data IoResult : Type 0 where
  result : Bytes → IoResult
  minus_one : IoResult
  thrown : IoResult
  blocked : Bytes → IoResult

abbrev pub throws : Checked → Bool
throws stop_work = true
throws c = false

-- The loop of Readn: `left` bytes to go, the bytes so far.
unfoldable pub readn : ℕ → Bytes → List Io → IoResult
readn left acc [] = if left == 0 then result acc else blocked acc
readn left acc (moved bs ∷ rs) =
    let rest = readn (left - length bs) (acc ++ bs) rs in
    if left == 0 || is_empty bs then result acc else rest
readn left acc (eintr c ∷ rs) =
    let rest = readn left acc rs in
    if left == 0 then result acc else if throws c then thrown else rest
readn left acc (failed ∷ rs) = if left == 0 then result acc else minus_one

-- The loop of Writen: the bytes to go, those on the wire; a write of no byte fails.
unfoldable pub writen : ℕ → Bytes → List Io → IoResult
writen left acc [] = if left == 0 then result acc else blocked acc
writen left acc (moved bs ∷ rs) =
    let rest = writen (left - length bs) (acc ++ bs) rs in
    if left == 0 then result acc else if is_empty bs then minus_one else rest
writen left acc (eintr c ∷ rs) =
    let rest = writen left acc rs in
    if left == 0 then result acc else if throws c then thrown else rest
writen left acc (failed ∷ rs) = if left == 0 then result acc else minus_one

-- The bytes that Readn put into the head and into the data buffer; `[]` is a result of at most 0.
pub record Arrival : Type 0 where
  pub head_read : Bytes
  pub data_read : Bytes

-- The buffers are cleared before they are read into.
abbrev pub padded : Bytes → Bytes
padded bs = bs ++ replicate (head_size - length bs) 0

-- The socket and xmlBuff.
pub record Reading : Type 0 where
  pub socket : WSocket
  pub xml_buff : Bytes

abbrev pub count_hc : Reading → Reading
count_hc r = record r { socket = record r.socket { hc_count = r.socket.hc_count + 1 } }

abbrev pub count_error : Reading → Reading
count_error r = record r { socket = record r.socket { error_count = r.socket.error_count + 1 } }

-- dataSize
abbrev pub data_size : WHead → ℤ
data_size h = pos h.total_size -ℤ pos no_totalsize_head_size

-- The branch of ReadWork for a head without data.
unfoldable pub without_data : WHead → Reading → Reading × List Sent
without_data h r =
    if h.handle_id == handle_id_hc_request
    then (count_hc r, to_hc h ∷ hc_check ∷ [])
    else if h.handle_id == handle_id_work_request
    then (if h.reply_kind_id == reply_kind_id_end
        then (record r { xml_buff = [] }, work_xml (c_string r.xml_buff) h ∷ [])
        else (r, []))
    else (count_error r, handle_id_error ∷ to_hc h ∷ [])

-- The branch for a head with data, `buff` being the data read.
unfoldable pub with_data : WHead → Bytes → Reading → Reading × List Sent
with_data h buff r =
    if h.handle_id == handle_id_work_request
    then (if h.reply_kind_id == reply_kind_id_end
        then (record r { xml_buff = [] }, work_xml (c_string (r.xml_buff ++ c_string buff)) h ∷ [])
        else if h.reply_kind_id == reply_kind_id_continue
        then (record r { xml_buff = r.xml_buff ++ c_string buff }, [])
        else (r, []))
    else if h.handle_id == handle_id_hc_request
    then (count_hc r, to_hc h ∷ hc_check ∷ [])
    else (count_error r, to_hc h ∷ handle_id_error ∷ [])

-- One round of the loop of ReadWork: it goes on, it has lost the connection and calls Connect, or
-- it allocates and reads a buffer of a negative size.
pub data Turn : Type 0 where
  next : Reading → List Sent → Turn
  broken : Reading → List Sent → Turn
  negative_size : ℤ → Turn

unfoldable pub lost : Reading → List Sent → Turn
lost r before =
    broken (record { socket = (disconnect r.socket).0; xml_buff = [] })
      (before ++ (disconnect r.socket).1)

unfoldable pub read_turn : Endian → Arrival → Reading → Turn
read_turn e a r =
    if is_empty a.head_read
    then lost r []
    else (let h = new_head e (padded a.head_read) in
        let note = reply_id (check_reply_id h) ∷ [] in
        if eq_ℤ (data_size h) (pos 0)
        then (let out = without_data h r in next out.0 (note ++ out.1))
        else if ltb_ℤ (data_size h) (pos 0)
        then negative_size (data_size h)
        else if is_empty a.data_read
        then lost r note
        else (let out = with_data h a.data_read r in next out.0 (note ++ out.1)))

-- WriteResponse: what goes to Writen, if anything.
unfoldable pub write_response : WHead → WSocket → Option Bytes
write_response h s = if s.connected then some h.bytes else none
