-- ===== src/Monitor/LogWatch/Watching/Notices.antt =====
-- What the watching thread tells of a log as it is written.
use others.Base.{
  ℕ, zero, suc, ◌<◌, ◌≡◌, ◌⊎◌, inl, inr, refl, ap, ◌∙◌, arith, true, List, [], ◌∷◌, ◌++◌, length,
  Bytes,
}
use others.Common.Log.{File}
use others.Monitor.LogWatch.Batch.{before_end, commands, commons}
use others.Monitor.LogWatch.LastLine.{line_buff_size, cut_returns}
use others.Monitor.LogWatch.LastLine.Backwards.{is_plain}
use others.Monitor.LogWatch.Watching.{
  LogRound, onto_first, pieces, until_zero, trimmed, buffered, watch_loop,
}
use others.Monitor.LogWatch.Watching.Telling.{
  told, AllReady, all_added, buffered-append, watch_loop-tells,
}
use others.Monitor.LogWatch.Watching.Written.{
  Entry, lines_of, AllMarkless, notices_of, end_line, end_line-before, commands_told, commons_told,
}

pieces-fits : (size room : ℕ) (l : Bytes) → length l < room → pieces size room l ≡ l ∷ []
unfolding pieces
pieces-fits size zero l h = ground arith
pieces-fits size (suc room) [] h = refl
pieces-fits size (suc room) (c ∷ l) h =
    ap (onto_first c) (pieces-fits size room l (omega (arith, h)))

until_zero-is_plain : (l : Bytes) → is_plain l ≡ true → until_zero l ≡ l
unfolding until_zero is_plain
until_zero-is_plain [] h = refl
until_zero-is_plain (c ∷ l) h = ground (arith, until_zero-is_plain l)

cut_returns-is_plain : (l : Bytes) → is_plain l ≡ true → cut_returns l ≡ l
unfolding cut_returns is_plain
cut_returns-is_plain [] h = refl
cut_returns-is_plain (c ∷ l) h = ground (arith, cut_returns-is_plain l)

-- Lines that fit the buffer with their ends, and have no zero byte and no other end of line in them.
abbrev pub AllFit : File → Type 0
AllFit [] = true ≡ true
AllFit (l ∷ ls) = (is_plain l ≡ true) × (length l < line_buff_size) × AllFit ls

buffered-fits :
    (l : Bytes) (ls : File)
    → is_plain l ≡ true
    → length l < line_buff_size
    → buffered (l ∷ ls) ≡ l ∷ buffered ls
unfolding buffered trimmed
buffered-fits l ls p h =
    ap (λ ps. trimmed ps ++ buffered ls) (pieces-fits line_buff_size line_buff_size l h)
    ∙ ap (λ k. k ∷ buffered ls)
        (ap cut_returns (until_zero-is_plain l p) ∙ cut_returns-is_plain l p)

buffered-AllFit : (ls : File) → AllFit ls → buffered ls ≡ ls
buffered-AllFit [] h = unfold buffered in refl
buffered-AllFit (l ∷ ls) (p, h, t) = buffered-fits l ls p h ∙ ap (λ k. l ∷ k) (buffered-AllFit ls t)

-- The end of what is written so far: nothing, or the end of the log and any lines behind it.
abbrev pub IsEnd : File → Type 0
IsEnd rest = (rest ≡ []) ⊎ ((behind : File) × (rest ≡ end_line ∷ behind))

before_end-IsEnd : (rest : File) → IsEnd rest → before_end (buffered rest) ≡ []
before_end-IsEnd rest (inl e) =
    ap (λ r. before_end (buffered r)) e ∙ unfold buffered before_end in refl
before_end-IsEnd rest (inr (behind, e)) =
    ap (λ r. before_end (buffered r)) e
    ∙ ap before_end (buffered-fits end_line behind (unfold is_plain in refl) (omega arith))
    ∙ end_line-before (buffered behind)

-- Where every round finds the file readable and reads it to its end, there is at least one, and the
-- lines behind the position, those there and those added by the rounds, are entries as they are
-- logged (as in a batch) that fit the buffer, with nothing or the end of the log behind them: the
-- batches tell, one after the other, just the texts of the notices, each once and in their order.
pub watch_loop-notices :
    (pre f : File) (r : LogRound) (rs : List LogRound) (es : List Entry) (rest : File)
    → AllReady (r ∷ rs)
    → f ++ all_added (r ∷ rs) ≡ lines_of es ++ rest
    → AllMarkless es
    → AllFit (lines_of es)
    → IsEnd rest
    → told (watch_loop (r ∷ rs) (pre ++ f) (length pre)).0 ≡ notices_of es
watch_loop-notices pre f r rs es rest ready e h fit end =
    watch_loop-tells pre f r rs ready
    ∙ ap (λ ls. commons (commands (before_end (buffered ls)))) e
    ∙ ap (λ ls. commons (commands (before_end ls)))
        (buffered-append (lines_of es) rest
          ∙ ap (λ ls. ls ++ buffered rest) (buffered-AllFit (lines_of es) fit))
    ∙ ap commons (commands_told es (buffered rest) h (before_end-IsEnd rest end))
    ∙ commons_told es
