-- ===== src/Monitor/LogWatch/Watching/Skipping.antt =====
-- What the watching thread never tells: the lines before its position.
use Prim.Native.Nat.add
use others.Base.{
  ℕ, ◌+◌, ◌≡◌, refl, sym, ap, ◌∙◌, arith, true, List, [], ◌∷◌, ◌++◌, length, drop, append_assoc,
  append-nil, some,
}
use others.Common.Log.{File, Which}
use others.Monitor.LogWatch.{get_current_log_file}
use others.Monitor.LogWatch.Watching.{
  Look, current_log_file, open_log_file_tail, LogRound, Selected, next_position, after_choice,
  timeout, failed, ready, watch_loop, watch_log,
}

drop-behind : (pre f : File) (n : ℕ) → drop (length pre + n) (pre ++ f) ≡ drop n f
drop-behind [] f n = rw add.zero refl
drop-behind (x ∷ pre) f n = rw add.suc (drop-behind pre f n)

length-behind : (pre f : File) → length (pre ++ f) ≡ length pre + length f
length-behind [] f = omega arith
length-behind (x ∷ pre) f = omega (arith, length-behind pre f)

next_position-behind :
    (r : Selected) (pre f : File) (n : ℕ)
    → next_position r (length pre + n) (pre ++ f) ≡ length pre + next_position r n f
next_position-behind timeout pre f n = refl
next_position-behind failed pre f n = refl
next_position-behind ready pre f n = length-behind pre f

-- The lines before the position play no part.
pub watch_loop-behind :
    (rs : List LogRound) (pre f : File) (n : ℕ)
    → watch_loop rs (pre ++ f) (length pre + n) ≡ watch_loop rs f n
unfolding watch_loop
watch_loop-behind [] pre f n = refl
watch_loop-behind (r ∷ rs) pre f n =
    let f' = f ++ r.added in
    rw
      (
        append_assoc pre f r.added,
        drop-behind pre f' n,
        next_position-behind r.selected pre f' n,
        watch_loop-behind rs pre f' (next_position r.selected n f'),
      )
      refl

-- Where the first look finds a file, and it can be opened: whatever the file holds by then, the
-- thread sends what it would send for an empty file, and so none of these lines.
pub watch_log-skips :
    (l : Look) (looks : List Look) (file : Which → File) (rounds : List LogRound) (w : Which)
    → get_current_log_file l.time_1 l.time_2 l.first l.second ≡ some w
    → watch_log (l ∷ looks) file true rounds ≡ watch_loop rounds [] 0
unfolding watch_log current_log_file open_log_file_tail after_choice
watch_log-skips l looks file rounds w found =
    rw (found, current_log_file, watch_log)
      (ap (λ f. watch_loop rounds f (length (file w))) (sym (append-nil (file w)))
        ∙ (ap (λ n. watch_loop rounds (file w ++ []) n) (omega arith)
            ∙ watch_loop-behind rounds (file w) [] 0))
