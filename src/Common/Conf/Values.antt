-- ===== src/Common/Conf/Values.antt =====
-- What the reader of common_conf.cxx makes of the text after `=`.
use Prim.Native.Nat.add
use native.Mathlib.Numerals.{add-one}
use others.Base.{
  ℕ, zero, suc, ◌+◌, ◌^◌, ◌≤◌, ◌<◌, ◌≡◌, ◌≢◌, refl, ap, ◌∙◌, arith, List, [], ◌∷◌, ◌++◌, none, some,
  Bytes, length, find, starts_with, take, drop, replicate, length-append, append_assoc,
}
use others.Common.Conf.{
  sub64, find_first_not_blank, find_last_not_blank, find_from, find_comment, add_to, slice,
  cut_comment, value_of,
}

-- No space and no tab.
abbrev pub IsWord : Bytes → Type 0
IsWord [] = Unit {0}
IsWord (c ∷ s) = (c ≢ b' ') × (c ≢ b'\t') × IsWord s

abbrev pub HasNoTab : Bytes → Type 0
HasNoTab [] = Unit {0}
HasNoTab (c ∷ s) = (c ≢ b'\t') × HasNoTab s

abbrev pub spaces : ℕ → Bytes
spaces n = replicate n b' '

drop-spaces : (n : ℕ) (s : Bytes) → drop n (spaces n ++ s) ≡ s
drop-spaces zero s = refl
drop-spaces (suc n) s = drop-spaces n s

pub first-spaces :
    (n c : ℕ) (s : Bytes) → c ≢ b' ' → c ≢ b'\t' → find_first_not_blank (spaces n ++ c ∷ s) ≡ some n
unfolding find_first_not_blank
first-spaces zero c s h k = ground arith
first-spaces (suc n) c s h k = rw (first-spaces n c s h k) refl

-- A search for a text that begins with a tab, where there is none.
find-tab : (p s : Bytes) → HasNoTab s → find (b'\t' ∷ p) s ≡ none
unfolding find starts_with
find-tab p [] h = refl
find-tab p (c ∷ s) h = ground (arith, find-tab p s h.1)

find-space_word : (p s : Bytes) → IsWord s → find (b' ' ∷ p) s ≡ none
unfolding find starts_with
find-space_word p [] h = refl
find-space_word p (c ∷ s) h = ground (arith, find-space_word p s h.2)

find-space_hash :
    (s rest : Bytes)
    → IsWord s
    → find (b' ' ∷ b'#' ∷ []) (s ++ b' ' ∷ b'#' ∷ rest) ≡ some (length s)
unfolding find starts_with
find-space_hash [] rest h = refl
find-space_hash (c ∷ s) rest h = ground (arith, find-space_hash s rest h.2)

word-HasNoTab : (s : Bytes) → IsWord s → HasNoTab s
word-HasNoTab [] h = tt
word-HasNoTab (c ∷ s) h = (h.1, word-HasNoTab s h.2)

HasNoTab-append : (s t : Bytes) → HasNoTab s → HasNoTab t → HasNoTab (s ++ t)
HasNoTab-append [] t h k = k
HasNoTab-append (c ∷ s) t h k = (h.0, HasNoTab-append s t h.1 k)

pub last-word : (c : ℕ) (s : Bytes) → IsWord (c ∷ s) → find_last_not_blank (c ∷ s) ≡ some (length s)
unfolding find_last_not_blank
last-word c [] h = ground arith
last-word c (d ∷ s) h = ground (arith, last-word d s h.2)

last-spaces :
    (n : ℕ) (s : Bytes) {k : ℕ}
    → find_last_not_blank s ≡ some k
    → find_last_not_blank (spaces n ++ s) ≡ some (n + k)
unfolding find_last_not_blank
last-spaces zero s e = ground arith
last-spaces (suc n) s e = ground (arith, last-spaces n s e)

last-only_spaces : (n : ℕ) → find_last_not_blank (spaces n) ≡ none
unfolding find_last_not_blank
last-only_spaces zero = refl
last-only_spaces (suc n) = ground (arith, last-only_spaces n)

find_from-spaces :
    (p : Bytes) (n : ℕ) (s : Bytes) → find_from p (spaces n ++ s) (some n) ≡ add_to n (find p s)
unfolding find_from
find_from-spaces p n s = rw (drop-spaces n s)

no_comment : (n : ℕ) (s : Bytes) → IsWord s → find_comment (spaces n ++ s) (some n) ≡ none
unfolding find_comment
no_comment n s w = rw (
  find_from-spaces,
  find-tab (b'#' ∷ []) s (word-HasNoTab s w),
  find_from-spaces,
  find-space_word (b'#' ∷ []) s w,
  find_from-spaces,
  find-tab (b'/' ∷ b'/' ∷ []) s (word-HasNoTab s w),
  find_from-spaces,
  find-space_word (b'/' ∷ b'/' ∷ []) s w,
)

hash_comment :
    (n : ℕ) (s rest : Bytes)
    → IsWord s
    → HasNoTab rest
    → find_comment (spaces n ++ (s ++ b' ' ∷ b'#' ∷ rest)) (some n) ≡ some (n + length s)
unfolding find_comment
hash_comment n s rest w t =
    let clean = HasNoTab-append s (b' ' ∷ b'#' ∷ rest) (word-HasNoTab s w) (ground arith) in
    rw (find_from-spaces, find-tab (b'#' ∷ []) _ clean, find_from-spaces, find-space_hash s rest w)

take-length {ℓ} : {A : Type ℓ} (s : List A) → take (length s) s ≡ s
take-length [] = refl
take-length (c ∷ s) = ap (λ x. c ∷ x) (take-length s)

take-length-append {ℓ} : {A : Type ℓ} (s t : List A) → take (length s) (s ++ t) ≡ s
take-length-append [] t = refl
take-length-append (c ∷ s) t = ap (λ x. c ∷ x) (take-length-append s t)

take-spaces : (n k : ℕ) (s : Bytes) → take (n + k) (spaces n ++ s) ≡ spaces n ++ take k s
take-spaces zero k s = ap (λ (m : ℕ). take m s) (omega arith)
take-spaces (suc n) k s = rw add.suc (ap (λ x. b' ' ∷ x) (take-spaces n k s))

take-fewer_spaces : (k n : ℕ) (s : Bytes) → k ≤ n → take k (spaces n ++ s) ≡ spaces k
take-fewer_spaces zero n s h = refl
take-fewer_spaces (suc k) zero s h = absurd (omega arith)
take-fewer_spaces (suc k) (suc n) s h = ap (λ x. b' ' ∷ x) (take-fewer_spaces k n s (omega arith))

sub64-cancel : (n k : ℕ) → k < 2 ^ 64 → sub64 (n + k) n ≡ k
sub64-cancel n k h = omega arith

-- The slice from the first to the last byte that is not blank.
pub slice-word :
    (n c : ℕ) (s : Bytes)
    → length s < 2 ^ 64
    → slice (spaces n ++ c ∷ s) (some n) (some (n + length s)) ≡ some (c ∷ s)
slice-word n c s h =
    rw (sub64-cancel n (length s) h, drop-spaces, add-one) (ap (λ x. some (c ∷ x)) (take-length s))

cut_comment_word :
    (n c : ℕ) (s : Bytes) → IsWord (c ∷ s) → cut_comment (spaces n ++ c ∷ s) ≡ spaces n ++ c ∷ s
unfolding cut_comment
cut_comment_word n c s w = ground (arith, first-spaces n c s w.0 w.1, no_comment n (c ∷ s) w)

-- A value with no blank in it, behind any number of spaces, is read as it stands.
pub value_of-word :
    (n c : ℕ) (s : Bytes)
    → IsWord (c ∷ s)
    → length s < 2 ^ 64
    → value_of (spaces n ++ c ∷ s) ≡ some (c ∷ s)
unfolding value_of
value_of-word n c s w small = rw (
  cut_comment_word n c s w,
  first-spaces n c s w.0 w.1,
  last-spaces n (c ∷ s) (last-word c s w),
  slice-word n c s small,
)

-- The text up to the comment loses as many bytes at its end as it has spaces at its front.
cut_comment_hash :
    (n c : ℕ) (s rest : Bytes)
    → IsWord (c ∷ s)
    → HasNoTab rest
    → suc (length s) < 2 ^ 64
    → cut_comment (spaces n ++ (c ∷ s ++ b' ' ∷ b'#' ∷ rest))
      ≡ take (suc (length s)) (spaces n ++ (c ∷ s ++ b' ' ∷ b'#' ∷ rest))
unfolding cut_comment
cut_comment_hash n c s rest w t small = ground (
  arith,
  first-spaces n c (s ++ b' ' ∷ b'#' ∷ rest) w.0 w.1,
  hash_comment n (c ∷ s) rest w t,
  sub64-cancel n (suc (length s)) small,
)

IsWord-front : (s t : Bytes) → IsWord (s ++ t) → IsWord s
IsWord-front [] t w = tt
IsWord-front (c ∷ s) t w = (w.0, w.1, IsWord-front s t w.2)

kept :
    (n c : ℕ) (s lost rest : Bytes)
    → length lost ≡ n
    → take (suc (length (s ++ lost))) (spaces n ++ (c ∷ (s ++ lost) ++ rest)) ≡ spaces n ++ c ∷ s
kept n c s lost rest e =
    ap (λ (k : ℕ). take k (spaces n ++ (c ∷ (s ++ lost) ++ rest)))
      (let k : suc (length (s ++ lost)) ≡ n + suc (length s) =
          omega (arith, length-append s lost) in
        k)
    ∙ take-spaces n (suc (length s)) (c ∷ (s ++ lost) ++ rest)
    ∙ rw (append_assoc s lost rest, take-length-append s (lost ++ rest))

-- With a comment behind it, a value with `n` spaces before it loses its last `n` bytes.
pub value_of-hash :
    (n c : ℕ) (s lost rest : Bytes)
    → IsWord (c ∷ s ++ lost)
    → length lost ≡ n
    → HasNoTab rest
    → suc (length (s ++ lost)) < 2 ^ 64
    → value_of (spaces n ++ (c ∷ (s ++ lost) ++ b' ' ∷ b'#' ∷ rest)) ≡ some (c ∷ s)
unfolding value_of
value_of-hash n c s lost rest w e t small =
    let word = IsWord-front (c ∷ s) lost w in
    rw (
      cut_comment_hash n c (s ++ lost) rest w t small,
      kept n c s lost (b' ' ∷ b'#' ∷ rest) e,
      last-spaces n (c ∷ s) (last-word c s word),
      first-spaces n c ((s ++ lost) ++ b' ' ∷ b'#' ∷ rest) w.0 w.1,
      slice-word n c s (omega (arith, length-append s lost)),
    )

-- A value without blanks that is not longer than the blanks before it, with a space, a `#` and a
-- comment without tabs behind it, is lost with its whole line.
pub value_of-hash_dropped :
    (n c : ℕ) (s rest : Bytes)
    → IsWord (c ∷ s)
    → suc (length s) ≤ n
    → HasNoTab rest
    → suc (length s) < 2 ^ 64
    → value_of (spaces n ++ (c ∷ s ++ b' ' ∷ b'#' ∷ rest)) ≡ none
unfolding value_of
value_of-hash_dropped n c s rest w h t small = rw (
  cut_comment_hash n c s rest w t small,
  take-fewer_spaces (suc (length s)) n (c ∷ s ++ b' ' ∷ b'#' ∷ rest) h,
  last-only_spaces (suc (length s)),
  first-spaces n c (s ++ b' ' ∷ b'#' ∷ rest) w.0 w.1,
)
