-- ===== src/Monitor/LogWatch/Watching/Marks.antt =====
-- What GetAoCmdFromLine of monitor/LogAnalyzer.cpp finds in a line with one mark of a command in it.
use others.Base.{
  ℕ, suc, ◌+◌, ◌≡◌, refl, ap, ◌∙◌, arith, Bool, true, false, not, ◌&&◌, ◌==◌, [], ◌∷◌, ◌++◌, length,
  drop, none, some, Bytes, codes, find, starts_with,
}
use others.Monitor.LogWatch.{
  hc_flag, work_flag, other_flag, common_flag, hc_counter, work_counter, other_counter, common,
  is_valid_cmd_line_buf, get_ao_cmd_from_line,
}

-- A text without `<`.
unfoldable pub is_clean : Bytes → Bool
is_clean [] = true
is_clean (c ∷ s) = not (c == 60) && is_clean s

find_clean : (p s : Bytes) → is_clean s ≡ true → find (60 ∷ p) s ≡ none
unfolding find starts_with is_clean
find_clean p [] h = refl
find_clean p (c ∷ s) h = ground (arith, find_clean p s)

find_hit :
    (stamp p s : Bytes)
    → is_clean stamp ≡ true
    → starts_with p s ≡ true
    → find (60 ∷ p) (stamp ++ 60 ∷ s) ≡ some (length stamp)
unfolding find starts_with is_clean
find_hit [] p s h g = ground arith
find_hit (c ∷ stamp) p s h g = ground (arith, find_hit stamp p s)

find_miss :
    (stamp p s : Bytes)
    → is_clean stamp ≡ true
    → is_clean s ≡ true
    → starts_with p s ≡ false
    → find (60 ∷ p) (stamp ++ 60 ∷ s) ≡ none
unfolding find starts_with is_clean
find_miss [] p s h k g = ground (arith, find_clean p s)
find_miss (c ∷ stamp) p s h k g = ground (arith, find_miss stamp p s)

zero_add : (n : ℕ) → 0 + n ≡ n
zero_add n = omega arith

suc_add : (m n : ℕ) → suc m + n ≡ suc (m + n)
suc_add m n = omega arith

drop-length : (ys zs : Bytes) → drop (length ys) (ys ++ zs) ≡ zs
drop-length [] zs = refl
drop-length (y ∷ ys) zs = drop-length ys zs

drop_both : (xs ys zs : Bytes) → drop (length xs + length ys) (xs ++ (ys ++ zs)) ≡ zs
drop_both [] [] zs = refl
drop_both [] (y ∷ ys) zs = rw (zero_add (suc (length ys))) (drop-length ys zs)
drop_both (x ∷ xs) ys zs = rw (suc_add (length xs) (length ys)) (drop_both xs ys zs)

get_hc :
    (l : Bytes) (i : ℕ)
    → find hc_flag l ≡ some i
    → get_ao_cmd_from_line l
      ≡ record { type = hc_counter; cmd_content = drop (i + length hc_flag) l }
unfolding get_ao_cmd_from_line
get_hc l i h = rw (h, get_ao_cmd_from_line) refl

pub flagged_hc :
    (stamp text : Bytes)
    → is_clean stamp ≡ true
    → get_ao_cmd_from_line (stamp ++ (codes "<HC_COUNT>" ++ text))
      ≡ record { type = hc_counter; cmd_content = text }
unfolding starts_with is_clean
flagged_hc stamp text h =
    let rest = codes "HC_COUNT>" ++ text in
    get_hc (stamp ++ 60 ∷ rest) (length stamp) (find_hit stamp (codes "HC_COUNT>") rest h refl)
    ∙ ap (λ c. record { type = hc_counter; cmd_content = c })
        (drop_both stamp (codes "<HC_COUNT>") text)

get_work :
    (l : Bytes) (i : ℕ)
    → find hc_flag l ≡ none
    → find work_flag l ≡ some i
    → get_ao_cmd_from_line l
      ≡ record { type = work_counter; cmd_content = drop (i + length work_flag) l }
unfolding get_ao_cmd_from_line
get_work l i m0 h = rw (m0, h, get_ao_cmd_from_line) refl

pub flagged_work :
    (stamp text : Bytes)
    → is_clean stamp ≡ true
    → is_clean text ≡ true
    → get_ao_cmd_from_line (stamp ++ (codes "<WORK_COUNT>" ++ text))
      ≡ record { type = work_counter; cmd_content = text }
unfolding starts_with is_clean
flagged_work stamp text h k =
    let rest = codes "WORK_COUNT>" ++ text in
    get_work (stamp ++ 60 ∷ rest) (length stamp) (find_miss stamp (codes "HC_COUNT>") rest h k refl)
      (find_hit stamp (codes "WORK_COUNT>") rest h refl)
    ∙ ap (λ c. record { type = work_counter; cmd_content = c })
        (drop_both stamp (codes "<WORK_COUNT>") text)

get_error :
    (l : Bytes) (i : ℕ)
    → find hc_flag l ≡ none
    → find work_flag l ≡ none
    → find other_flag l ≡ some i
    → get_ao_cmd_from_line l
      ≡ record { type = other_counter; cmd_content = drop (i + length other_flag) l }
unfolding get_ao_cmd_from_line
get_error l i m0 m1 h = rw (m0, m1, h, get_ao_cmd_from_line) refl

pub flagged_error :
    (stamp text : Bytes)
    → is_clean stamp ≡ true
    → is_clean text ≡ true
    → get_ao_cmd_from_line (stamp ++ (codes "<ERROR_COUNT>" ++ text))
      ≡ record { type = other_counter; cmd_content = text }
unfolding starts_with is_clean
flagged_error stamp text h k =
    let rest = codes "ERROR_COUNT>" ++ text in
    get_error (stamp ++ 60 ∷ rest) (length stamp)
      (find_miss stamp (codes "HC_COUNT>") rest h k refl)
      (find_miss stamp (codes "WORK_COUNT>") rest h k refl)
      (find_hit stamp (codes "ERROR_COUNT>") rest h refl)
    ∙ ap (λ c. record { type = other_counter; cmd_content = c })
        (drop_both stamp (codes "<ERROR_COUNT>") text)

get_command :
    (l : Bytes) (i : ℕ)
    → find hc_flag l ≡ none
    → find work_flag l ≡ none
    → find other_flag l ≡ none
    → find common_flag l ≡ some i
    → get_ao_cmd_from_line l
      ≡ record { type = common; cmd_content = drop (i + length common_flag) l }
unfolding get_ao_cmd_from_line
get_command l i m0 m1 m2 h = rw (m0, m1, m2, h, get_ao_cmd_from_line) refl

pub flagged_command :
    (stamp text : Bytes)
    → is_clean stamp ≡ true
    → is_clean text ≡ true
    → get_ao_cmd_from_line (stamp ++ (codes "<COMMAND>" ++ text))
      ≡ record { type = common; cmd_content = text }
unfolding starts_with is_clean
flagged_command stamp text h k =
    let rest = codes "COMMAND>" ++ text in
    get_command (stamp ++ 60 ∷ rest) (length stamp)
      (find_miss stamp (codes "HC_COUNT>") rest h k refl)
      (find_miss stamp (codes "WORK_COUNT>") rest h k refl)
      (find_miss stamp (codes "ERROR_COUNT>") rest h k refl)
      (find_hit stamp (codes "COMMAND>") rest h refl)
    ∙ ap (λ c. record { type = common; cmd_content = c }) (drop_both stamp (codes "<COMMAND>") text)

pub neither_valid : (text : Bytes) → is_clean text ≡ true → is_valid_cmd_line_buf text ≡ false
unfolding is_valid_cmd_line_buf
neither_valid text h =
    rw
      (
        find_clean (codes "HC_COUNT>") text h,
        find_clean (codes "WORK_COUNT>") text h,
        find_clean (codes "ERROR_COUNT>") text h,
        find_clean (codes "COMMAND>") text h,
      )
      refl
