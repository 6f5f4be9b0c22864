-- ===== src/Receive/Work/Answer.antt =====
-- Every piece of work is answered.
use others.Base.{ℕ, ◌≡◌, refl, sym, ◌∙◌, subst, inr, Bool, true, none, some, Bytes}
use others.Base.Int.{pos}
use others.Receive.Head.{WHead, LocalTime, HcSleep, handle_id_work_request, run}
use others.Receive.Head.Layout.{Endian}
use others.Receive.Head.Coherence.{IsCoherent}
use others.Receive.Head.Reply.{IsReplyTo, run_replies}
use others.Receive.Work.{Parsed, WorkSleep, run_work, send_response}

-- The answer to a work request is the one that WHead::Run makes of it.
run_work-run :
    (xerces : Bytes → ℕ → Parsed) (e : Endian) (now : LocalTime) (connected still : Bool)
    (test : WorkSleep) (hc : HcSleep) (source : Bytes) (h : WHead)
    → h.handle_id ≡ handle_id_work_request
    → (run e now true hc h).response
      ≡ some (run_work xerces e now connected still test source h).head.bytes
unfolding run run_work send_response
run_work-run xerces e now connected still test hc source h w = rw w refl

-- Whatever the text, the parser and the connection do: the telegram given to WriteResponse after a
-- work request with a coherent header is the reply to it, 32 bytes that read as a header: the size
-- 30, the handle id of the request plus one, its reply id, the reply kind 0, the two equipment ids,
-- and 0 for the sequence id, the data size and the repeat count.
pub run_work_answers :
    (xerces : Bytes → ℕ → Parsed) (e : Endian) (now : LocalTime) (connected still : Bool)
    (test : WorkSleep) (source : Bytes) (h : WHead)
    → IsCoherent e h
    → h.handle_id ≡ handle_id_work_request
    → IsReplyTo e h (run_work xerces e now connected still test source h).head.bytes
run_work_answers xerces e now connected still test source h c w =
    let hc : HcSleep = record { hc_sleep_time = pos 0; hc_sleep_num = pos 0 } in
    let (p, sent, reply) = run_replies e now hc h c (inr w) in
    let same = sym sent ∙ run_work-run xerces e now connected still test hc source h w in
    subst (λ o. elim o [ none ↦ Unit | some q ↦ IsReplyTo e h q ]) same reply
