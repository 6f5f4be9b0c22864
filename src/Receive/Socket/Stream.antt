-- ===== src/Receive/Socket/Stream.antt =====
-- The loops of Readn and Writen.
use others.Base.{
  ℕ, suc, ◌-◌, ◌<◌, ◌≡◌, arith, sym, ap, ◌∙◌, false, List, [], ◌∷◌, ◌++◌, length, length-append,
  Bytes, append_assoc, append-nil,
}
use others.Receive.Socket.{Io, moved, eintr, Checked, result, readn, writen, throws}

-- Calls that move bytes or are interrupted without an exception, and all bytes they move.
pub data Moves : List Io → Bytes → Type 0 where
  no_moves : Moves [] []
  some_bytes :
      (b : ℕ) (bs bytes : Bytes) (rs : List Io)
      → Moves rs bytes
      → Moves (moved (b ∷ bs) ∷ rs) (b ∷ bs ++ bytes)
  interruption :
      (c : Checked) (bytes : Bytes) (rs : List Io)
      → throws c ≡ false
      → Moves rs bytes
      → Moves (eintr c ∷ rs) bytes

length_minus : (bs bytes : Bytes) → suc (length (bs ++ bytes)) - suc (length bs) ≡ length bytes
length_minus bs bytes = let l = length-append bs bytes in omega arith

-- However the calls of read split the bytes up and are interrupted, as long as none of them fails,
-- Readn returns all the bytes that were asked for, in order.
pub readn-all :
    (rs : List Io) (bytes acc : Bytes)
    → Moves rs bytes
    → readn (length bytes) acc rs ≡ result (acc ++ bytes)
unfolding readn
readn-all [] _ acc no_moves = ap result (sym (append-nil acc))
readn-all _ _ acc (some_bytes b bs bytes rs m) =
    let left = length_minus bs bytes in
    let rest = readn-all rs bytes (acc ++ b ∷ bs) m ∙ ap result (append_assoc acc (b ∷ bs) bytes) in
    ground arith
readn-all _ _ acc (interruption c [] rs t m) = ap result (sym (append-nil acc))
readn-all _ _ acc (interruption c (b ∷ bytes) rs t m) =
    let rest = readn-all rs (b ∷ bytes) acc m in ground arith

-- However the calls of write split the bytes up and are interrupted, as long as none of them fails,
-- Writen puts all the bytes on the wire, in order.
pub writen-all :
    (rs : List Io) (bytes acc : Bytes)
    → Moves rs bytes
    → writen (length bytes) acc rs ≡ result (acc ++ bytes)
unfolding writen
writen-all [] _ acc no_moves = ap result (sym (append-nil acc))
writen-all _ _ acc (some_bytes b bs bytes rs m) =
    let left = length_minus bs bytes in
    let rest =
      writen-all rs bytes (acc ++ b ∷ bs) m ∙ ap result (append_assoc acc (b ∷ bs) bytes) in
    ground arith
writen-all _ _ acc (interruption c [] rs t m) = ap result (sym (append-nil acc))
writen-all _ _ acc (interruption c (b ∷ bytes) rs t m) =
    let rest = writen-all rs (b ∷ bytes) acc m in ground arith

-- Where the stream ends before all the bytes asked for are read, Readn returns those there are.
pub readn-short :
    (rs : List Io) (n : ℕ) (bytes acc : Bytes)
    → Moves rs bytes
    → length bytes < n
    → readn n acc (rs ++ moved [] ∷ []) ≡ result (acc ++ bytes)
unfolding readn
readn-short [] n _ acc no_moves h = let e = append-nil acc in ground arith
readn-short _ n _ acc (some_bytes b bs bytes rs m) h =
    let total = length-append bs bytes in
    let rest =
      readn-short rs (n - suc (length bs)) bytes (acc ++ b ∷ bs) m (omega arith)
      ∙ ap result (append_assoc acc (b ∷ bs) bytes) in
    ground arith
readn-short _ n _ acc (interruption c bytes rs t m) h =
    let rest = readn-short rs n bytes acc m h in ground arith
