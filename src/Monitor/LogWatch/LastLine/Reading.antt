-- ===== src/Monitor/LogWatch/LastLine/Reading.antt =====
-- What is read of the end of a log file, and what is asked of it.
use others.Base.{
  ℕ, zero, suc, ◌-◌, ◌≤◌, ◌<◌, ◌≡◌, arith, refl, sym, ap, ◌∙◌, subst, Bool, true, false, not, [],
  ◌∷◌, ◌++◌, some, Bytes, length, length-append, take, is_empty,
}
use others.Common.Log.{File}
use others.Monitor.LogWatch.{last_line, is_current, is_log_end}
use others.Monitor.LogWatch.LastLine.{
  line_buff_size, is_return, char_at, skip_returns, line_start, seek_last_line, fgets, cut_returns,
  is_chosen, is_end_log_file, read_last_line_of_file,
}
use others.Monitor.LogWatch.LastLine.Backwards.{
  text, is_plain, is_logged, get_elem?-char_at, is_plain-char_at, char_at-append,
  skip_returns-stays, Ends, text-Ends, seek_last_line-Ends,
}

cut_returns-fgets :
    (n : ℕ) (l s : Bytes) → is_plain l ≡ true → cut_returns (fgets n (l ++ 10 ∷ s)) ≡ take n l
unfolding cut_returns fgets is_plain
cut_returns-fgets zero l s h = refl
cut_returns-fgets (suc n) [] s h = refl
cut_returns-fgets (suc n) (c ∷ l) s h = ground (arith, cut_returns-fgets n l s)

last_line-is_plain :
    (l : Bytes) (ls : File)
    → is_logged (l ∷ ls) ≡ true
    → (c : ℕ) × (k : Bytes) × (last_line l ls ≡ c ∷ k) × (is_plain (c ∷ k) ≡ true)
unfolding is_logged last_line
last_line-is_plain [] [] h = ground arith
last_line-is_plain (c ∷ l) [] h = (c, l, refl, ground arith)
last_line-is_plain l (k ∷ ls) h = last_line-is_plain k ls (ground arith)

-- The last line of the file, as far as the buffer takes it, is what ReadLastLineOfFile reads of a
-- file of lines, none of them empty or with a zero byte or an end of line in it.
pub read_last_line_of_file-text :
    (l : Bytes) (ls : File)
    → is_logged (l ∷ ls) ≡ true
    → read_last_line_of_file (some (text (l ∷ ls))) ≡ some (take line_buff_size (last_line l ls))
unfolding read_last_line_of_file
read_last_line_of_file-text l ls h =
    let (m, t) = text-Ends l ls h in
    let (c, k, e, p) = last_line-is_plain l ls h in
    let (s, d, n) = t in
    let t' : Ends (text (l ∷ ls)) (c ∷ k) m = subst (λ k. Ends (text (l ∷ ls)) k m) e t in
    let x = seek_last_line-Ends (text (l ∷ ls)) c k m p t' in
    let p' : is_plain (last_line l ls) ≡ true = subst (λ k. is_plain k ≡ true) (sym e) p in
    rw (x, d, cut_returns-fgets line_buff_size (last_line l ls) [] p') refl

take-length : (n : ℕ) (l : Bytes) → length l ≤ n → take n l ≡ l
take-length zero [] h = refl
take-length zero (c ∷ l) h = ground arith
take-length (suc n) [] h = refl
take-length (suc n) (c ∷ l) h = ap (λ k. c ∷ k) (take-length n l (omega (arith, h)))

is_end_log_file-some :
    (f k : Bytes)
    → read_last_line_of_file (some f) ≡ some k
    → is_end_log_file (some f) ≡ some (is_log_end k)
unfolding is_end_log_file
is_end_log_file-some f k e = rw (e, is_end_log_file) refl

is_chosen-some :
    (f : Bytes) (b : Bool)
    → is_empty f ≡ false
    → is_end_log_file (some f) ≡ some b
    → is_chosen (some f) ≡ not b
unfolding is_chosen
is_chosen-some f b x e = rw (x, e) refl

text-is_empty : (l : Bytes) (ls : File) → is_empty (text (l ∷ ls)) ≡ false
unfolding text
text-is_empty [] ls = refl
text-is_empty (c ∷ l) ls = refl

-- What GetCurrentLogFile asks of a file, read as bytes and backwards, is for a file of lines as they
-- are logged, with a last line that fits the buffer, whether the last line has no end flag in it.
pub is_chosen-text :
    (l : Bytes) (ls : File)
    → is_logged (l ∷ ls) ≡ true
    → length (last_line l ls) ≤ line_buff_size
    → is_chosen (some (text (l ∷ ls))) ≡ is_current (some (l ∷ ls))
unfolding is_current
is_chosen-text l ls h b =
    is_chosen-some (text (l ∷ ls)) (is_log_end (last_line l ls)) (text-is_empty l ls) (
      is_end_log_file-some (text (l ∷ ls)) (last_line l ls) (
        read_last_line_of_file-text l ls h
        ∙ ap (λ k. some k) (take-length line_buff_size (last_line l ls) b)))

-- In the file of an empty line and one more, the loop goes back to the front.
line_start-front :
    (f : Bytes) (e p : ℕ)
    → ((i : ℕ) → 0 < i → i < e → is_return (char_at f i) ≡ false)
    → suc p < e
    → line_start f (char_at f (suc p)) (suc (suc p)) ≡ 0
unfolding line_start
line_start-front f e zero plain b = rw (plain 1 (omega arith) b) refl
line_start-front f e (suc p) plain b =
    rw (plain (suc (suc p)) (omega arith) b) (line_start-front f e p plain (omega (arith, b)))

behind_first :
    (l : Bytes)
    → is_plain l ≡ true
    → (i : ℕ) → 0 < i
    → i < suc (length l)
    → is_return (char_at (10 ∷ (l ++ 10 ∷ [])) i) ≡ false
behind_first l h zero a b = ground arith
behind_first l h (suc i) a b = is_plain-char_at l (10 ∷ []) i h (omega (arith, b))

seek_last_line-blank :
    (c : ℕ) (l : Bytes)
    → is_plain (c ∷ l) ≡ true
    → let f = 10 ∷ c ∷ (l ++ 10 ∷ []) in seek_last_line f (length f) ≡ 0
unfolding seek_last_line skip_returns line_start
seek_last_line-blank c l h =
    let f : Bytes = 10 ∷ c ∷ (l ++ 10 ∷ []) in
    let n : length f ≡ suc (suc (suc (length l))) = omega (arith, length-append l (10 ∷ [])) in
    let z : length (10 ∷ c ∷ l) ≡ suc (suc (suc (length l))) - 1 = omega arith in
    let y : char_at f (suc (suc (suc (length l))) - 1) ≡ 10 =
      subst (λ i. char_at f i ≡ 10) z (char_at-append (10 ∷ c ∷ l) [] 10) in
    let plain : (i : ℕ) → 0 < i → i < suc (suc (length l)) → is_return (char_at f i) ≡ false =
      behind_first (c ∷ l) h in
    let b = plain (suc (length l)) (omega arith) (omega arith) in
    let g = get_elem?-char_at f (suc (length l)) (omega (arith, n)) in
    rw (n, y, g, skip_returns-stays f (char_at f (suc (length l))) (suc (suc (length l))) b)
      (line_start-front f (suc (suc (length l))) (length l) plain (omega arith))

-- A file of one line behind an empty line is read as if it ended with the empty line.
pub read_last_line_of_file-blank :
    (c : ℕ) (l : Bytes)
    → is_plain (c ∷ l) ≡ true
    → read_last_line_of_file (some (10 ∷ c ∷ (l ++ 10 ∷ []))) ≡ some []
unfolding read_last_line_of_file fgets cut_returns
read_last_line_of_file-blank c l h = rw (seek_last_line-blank c l h) refl
