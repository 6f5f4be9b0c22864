-- ===== src/Receive/Head/Coherence.antt =====
-- The fields and the bytes of a header of WHead.cxx say the same.
use others.Base.{
  ℕ, zero, suc, ◌<◌, ◌≤◌, ◌≡◌, arith, ap, refl, length, Bytes, List, [], ◌∷◌, get_or-set,
  length-set, get_or, take,
}
use others.Receive.Head.Layout.{Endian, big, little, get16, get32}
use others.Receive.Head.{
  WHead, LocalTime, head_size, new_head, set_handle_id, set_size, set_time, set_default,
}

-- Each field is what a fresh read of the bytes gives, and there are 32 bytes.
pub record IsCoherent (e : Endian) (h : WHead) : Type 0 where
  pub full : length h.bytes ≡ 32
  pub total_size : h.total_size ≡ get16 e h.bytes 0
  pub business_id : h.business_id ≡ get_or h.bytes 2 0
  pub method_id : h.method_id ≡ get_or h.bytes 3 0
  pub handle_id : h.handle_id ≡ get16 e h.bytes 4
  pub reply_id : h.reply_id ≡ get32 e h.bytes 6
  pub reply_kind_id : h.reply_kind_id ≡ get16 e h.bytes 10
  pub destination_id : h.destination_id ≡ get32 e h.bytes 12
  pub source_id : h.source_id ≡ get32 e h.bytes 16
  pub sequence_id : h.sequence_id ≡ get_or h.bytes 20 0
  pub reserve_1 : h.reserve_1 ≡ get_or h.bytes 21 0
  pub data_size : h.data_size ≡ get16 e h.bytes 28
  pub repeat_count : h.repeat_count ≡ get_or h.bytes 30 0
  pub reserve_2 : h.reserve_2 ≡ get_or h.bytes 31 0

pub set_handle_id-IsCoherent :
    (e : Endian) (id : ℕ) (h : WHead)
    → id < 65536
    → IsCoherent e h
    → IsCoherent e (set_handle_id e id h)
unfolding set_handle_id
set_handle_id-IsCoherent big id h small c = grind (arith, get_or-set, length-set)
set_handle_id-IsCoherent little id h small c = grind (arith, get_or-set, length-set)

take-all {ℓ} : {A : Type ℓ} (n : ℕ) (xs : List A) → length xs ≤ n → take n xs ≡ xs
take-all zero [] h = refl
take-all zero (x ∷ xs) h = absurd (omega arith)
take-all (suc n) [] h = refl
take-all (suc n) (x ∷ xs) h = ap (λ ys. x ∷ ys) (take-all n xs (omega arith))

-- A header read from 32 bytes is coherent.
pub new_head-IsCoherent :
    (e : Endian) (p : Bytes) → length p ≡ head_size → IsCoherent e (new_head e p)
unfolding new_head
new_head-IsCoherent e p h = rw (take-all 32 p (omega arith)) (ground arith)

pub set_size-IsCoherent : (e : Endian) (h : WHead) → IsCoherent e h → IsCoherent e (set_size e h)
unfolding set_size
set_size-IsCoherent big h c = grind (arith, get_or-set, length-set)
set_size-IsCoherent little h c = grind (arith, get_or-set, length-set)

pub set_time-IsCoherent :
    (e : Endian) (t : LocalTime) (h : WHead) → IsCoherent e h → IsCoherent e (set_time t h)
unfolding set_time
set_time-IsCoherent big t h c = grind (arith, get_or-set, length-set)
set_time-IsCoherent little t h c = grind (arith, get_or-set, length-set)

pub set_default-IsCoherent :
    (e : Endian) (t : LocalTime) (h : WHead) → IsCoherent e h → IsCoherent e (set_default e t h)
unfolding set_default
set_default-IsCoherent big t h c = grind (arith, get_or-set, length-set)
set_default-IsCoherent little t h c = grind (arith, get_or-set, length-set)
