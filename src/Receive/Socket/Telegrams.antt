-- ===== src/Receive/Socket/Telegrams.antt =====
-- The XML texts that ReadWork puts together.
use others.Base.{
  ℕ, ◌<◌, ◌≡◌, arith, refl, ap, ◌∙◌, false, List, [], ◌∷◌, ◌++◌, Bytes, is_empty, append_assoc,
  append-nil,
}
use others.Base.Int.{◌-ℤ◌}
use others.Receive.FixChar.{c_string}
use others.Receive.Head.Layout.{Endian}
use others.Receive.Head.{
  WHead, new_head, check_reply_id, handle_id_hc_request, handle_id_work_request,
  no_totalsize_head_size, reply_kind_id_end, reply_kind_id_continue,
}
use others.Receive.Socket.{
  WSocket, Sent, work_xml, reply_id, to_hc, hc_check, hc_stop, handle_id_error, connection_setup,
  connection_broken, Arrival, padded, Reading, count_hc, without_data, with_data, Turn, next,
  broken, negative_size, read_turn,
}

abbrev pub head_of : Endian → Arrival → WHead
head_of e a = new_head e (padded a.head_read)

-- A telegram with all its data and this handle id.
abbrev pub IsTelegram : Endian → ℕ → Arrival → Type 0
IsTelegram e id a =
    (is_empty a.head_read ≡ false)
    × ((head_of e a).handle_id ≡ id)
    × (no_totalsize_head_size < (head_of e a).total_size)
    × (is_empty a.data_read ≡ false)

-- Work telegrams that are to be continued, and health checks without data among them, with the
-- texts of the former.
pub data Continues (e : Endian) : List Arrival → Bytes → Type 0 where
  nothing_yet : Continues e [] []
  part :
      (a : Arrival) (rest : List Arrival) (xml : Bytes)
      → IsTelegram e handle_id_work_request a
      → (head_of e a).reply_kind_id ≡ reply_kind_id_continue
      → Continues e rest xml
      → Continues e (a ∷ rest) (c_string a.data_read ++ xml)
  health_check :
      (a : Arrival) (rest : List Arrival) (xml : Bytes)
      → is_empty a.head_read ≡ false
      → (head_of e a).handle_id ≡ handle_id_hc_request
      → (head_of e a).total_size ≡ no_totalsize_head_size
      → Continues e rest xml
      → Continues e (a ∷ rest) xml

-- The rounds of ReadWork, as long as the connection holds, with all that is sent.
abbrev pub read_turns : Endian → List Arrival → Reading → List Sent → Turn
read_turns e [] r sent = next r sent
read_turns e (a ∷ rest) r sent = elim (read_turn e a r) [
  | next r' out ↦ read_turns e rest r' (sent ++ out)
  | broken r' out ↦ broken r' (sent ++ out)
  | negative_size z ↦ negative_size z
]

-- The texts for the work thread.
abbrev pub texts : List Sent → List Bytes
texts [] = []
texts (work_xml x h ∷ out) = x ∷ texts out
texts (s ∷ out) = texts out

part-turn :
    (e : Endian) (a : Arrival) (r : Reading)
    → IsTelegram e handle_id_work_request a
    → (head_of e a).reply_kind_id ≡ reply_kind_id_continue
    → read_turn e a r
      ≡ next
          (record r { xml_buff = r.xml_buff ++ c_string a.data_read })
          (reply_id (check_reply_id (head_of e a)) ∷ [])
unfolding read_turn with_data ◌-ℤ◌
part-turn e a r t k = ground arith

end-turn :
    (e : Endian) (a : Arrival) (r : Reading)
    → IsTelegram e handle_id_work_request a
    → (head_of e a).reply_kind_id ≡ reply_kind_id_end
    → read_turn e a r
      ≡ next
          (record r { xml_buff = [] })
          (reply_id (check_reply_id (head_of e a))
            ∷ work_xml (c_string (r.xml_buff ++ c_string a.data_read)) (head_of e a)
            ∷ [])
unfolding read_turn with_data ◌-ℤ◌
end-turn e a r t k = ground arith

health_check-turn :
    (e : Endian) (a : Arrival) (r : Reading)
    → is_empty a.head_read ≡ false
    → (head_of e a).handle_id ≡ handle_id_hc_request
    → (head_of e a).total_size ≡ no_totalsize_head_size
    → read_turn e a r
      ≡ next
          (count_hc r)
          (reply_id (check_reply_id (head_of e a)) ∷ to_hc (head_of e a) ∷ hc_check ∷ [])
unfolding read_turn without_data ◌-ℤ◌
health_check-turn e a r h k t = ground arith

texts-append : (xs ys : List Sent) → texts (xs ++ ys) ≡ texts xs ++ texts ys
texts-append [] ys = refl
texts-append (work_xml x h ∷ xs) ys = ap (λ t. x ∷ t) (texts-append xs ys)
texts-append (to_hc h ∷ xs) ys = texts-append xs ys
texts-append (hc_check ∷ xs) ys = texts-append xs ys
texts-append (hc_stop ∷ xs) ys = texts-append xs ys
texts-append (reply_id n ∷ xs) ys = texts-append xs ys
texts-append (handle_id_error ∷ xs) ys = texts-append xs ys
texts-append (connection_setup ∷ xs) ys = texts-append xs ys
texts-append (connection_broken ∷ xs) ys = texts-append xs ys

turns-next :
    (e : Endian) (a : Arrival) (rest : List Arrival) (r r' : Reading) (sent out : List Sent)
    → read_turn e a r ≡ next r' out
    → read_turns e (a ∷ rest) r sent ≡ read_turns e rest r' (sent ++ out)
turns-next e a rest r r' sent out h = rw (h, read_turns) refl

-- What one document leaves: one more text for the work thread, and an empty buffer.
abbrev pub IsDelivered : Turn → List Bytes → Type 0
IsDelivered t xs =
    (r : Reading) × (out : List Sent) × (t ≡ next r out) × (r.xml_buff ≡ []) × (texts out ≡ xs)

with_texts : (t : Turn) (xs ys : List Bytes) → IsDelivered t xs → xs ≡ ys → IsDelivered t ys
with_texts t xs ys (r, out, h, b, e) f = (r, out, h, b, e ∙ f)

no_texts :
    (sent out : List Sent) (xs : List Bytes)
    → texts out ≡ []
    → texts (sent ++ out) ++ xs ≡ texts sent ++ xs
no_texts sent out xs e =
    ap (λ t. t ++ xs)
      (texts-append sent out ∙ ap (λ t. texts sent ++ t) e ∙ append-nil (texts sent))

deliver :
    (e : Endian) (as' : List Arrival) (z : Arrival) (xml : Bytes) (r : Reading) (sent : List Sent)
    → Continues e as' xml
    → IsTelegram e handle_id_work_request z
    → (head_of e z).reply_kind_id ≡ reply_kind_id_end
    → IsDelivered
        (read_turns e (as' ++ z ∷ []) r sent)
        (texts sent ++ c_string ((r.xml_buff ++ xml) ++ c_string z.data_read) ∷ [])
deliver e _ z _ r sent nothing_yet t k =
    rw (turns-next e z [] r _ sent _ (end-turn e z r t k), append-nil r.xml_buff)
      (_, _, refl, refl, texts-append sent _)
deliver e _ z _ r sent (part a rest xml p c more) t k =
    rw (turns-next e a (rest ++ z ∷ []) r _ sent _ (part-turn e a r p c)) (
      with_texts _ _ _
        (deliver e rest z xml (record r { xml_buff = r.xml_buff ++ c_string a.data_read })
          (sent ++ reply_id (check_reply_id (head_of e a)) ∷ []) more t k)
        (no_texts sent (reply_id (check_reply_id (head_of e a)) ∷ []) _ refl
          ∙ ap (λ x. texts sent ++ c_string (x ++ c_string z.data_read) ∷ [])
              (append_assoc r.xml_buff (c_string a.data_read) xml)))
deliver e _ z _ r sent (health_check a rest xml h i s more) t k =
    let out = reply_id (check_reply_id (head_of e a)) ∷ to_hc (head_of e a) ∷ hc_check ∷ [] in
    rw (turns-next e a (rest ++ z ∷ []) r _ sent _ (health_check-turn e a r h i s)) (
      with_texts _ _ _ (deliver e rest z xml (count_hc r) (sent ++ out) more t k)
        (no_texts sent out _ refl))

-- Where one document comes in any number of telegrams, with health checks among them, the work
-- thread gets one text, which is what the telegrams carried in their order, and the buffer is
-- empty for the next document.
pub read_turns-delivers :
    (e : Endian) (parts : List Arrival) (z : Arrival) (xml : Bytes) (s : WSocket)
    → Continues e parts xml
    → IsTelegram e handle_id_work_request z
    → (head_of e z).reply_kind_id ≡ reply_kind_id_end
    → IsDelivered
        (read_turns e (parts ++ z ∷ []) (record { socket = s; xml_buff = [] }) [])
        (c_string (xml ++ c_string z.data_read) ∷ [])
read_turns-delivers e parts z xml s c t k =
    deliver e parts z xml (record { socket = s; xml_buff = [] }) [] c t k
