-- ===== src/Receive/FixChar/Outcome.antt =====
-- What FixChar leaves in m_inputSource, and where its last write goes.
use others.Base.{
  ℕ, zero, suc, ◌≤◌, ◌<◌, ◌≡◌, ◌≢◌, refl, sym, ap, ◌∙◌, arith, Bool, true, false, [], ◌∷◌, ◌++◌,
  Bytes, length, set, take, length-append, inl, inr, Bool-cases, ◌==◌,
}
use others.Receive.FixChar.InPlace.{fix_loop_writes}
use others.Receive.FixChar.{
  is_pair, fix_pair, is_fixed_pair, fix_start, fix_end, c_string, fix_char, Repairs, done, single,
  pair, pair_cut, triple, triple_cut_one, triple_cut_two,
}

abbrev pub AllNonZero : Bytes → Type 0
AllNonZero [] = Unit {0}
AllNonZero (c ∷ cs) = (c ≢ 0) × AllNonZero cs

abbrev pub AllAscii : Bytes → Type 0
AllAscii [] = Unit {0}
AllAscii (c ∷ cs) = (c < 0x80) × AllAscii cs

-- Every text has a repair.
pub Repairs-total :
    (text : Bytes) → (out : Bytes) × (change : Bool) × (cut : Bool) × Repairs text out change cut
Repairs-total [] = ([], false, false, done)
Repairs-total (c ∷ []) = elim (Bool-cases (is_pair c)) [
  | inl p ↦ (_, _, _, pair_cut p)
  | inr p ↦ elim (Bool-cases (c == 0x8f)) [
    | inl q ↦ (_, _, _, triple_cut_one q)
    | inr q ↦ (_, _, _, single p q done)
  ]
]
Repairs-total (c ∷ d ∷ []) = elim (Bool-cases (is_pair c)) [
  | inl p ↦ (_, _, _, pair p done)
  | inr p ↦ elim (Bool-cases (c == 0x8f)) [
    | inl q ↦ (_, _, _, triple_cut_two q)
    | inr q ↦ let (out, change, cut, r) = Repairs-total (d ∷ []) in (_, _, _, single p q r)
  ]
]
Repairs-total (c ∷ d ∷ e ∷ text) = elim (Bool-cases (is_pair c)) [
  | inl p ↦ let (out, change, cut, r) = Repairs-total (e ∷ text) in (_, _, _, pair p r)
  | inr p ↦ elim (Bool-cases (c == 0x8f)) [
    | inl q ↦ let (out, change, cut, r) = Repairs-total text in (_, _, _, triple q r)
    | inr q ↦ let (out, change, cut, r) = Repairs-total (d ∷ e ∷ text) in (_, _, _, single p q r)
  ]
]

-- The state after the loop.
pub fix_end_writes :
    {text out : Bytes} {change cut : Bool}
    → Repairs text out change cut
    → (take (fix_end text).j (fix_end text).buffer ≡ out)
      × ((fix_end text).j ≡ length out)
      × (length (fix_end text).buffer ≡ suc (length text))
      × ((fix_end text).fixed ≡ change)
unfolding fix_end fix_start
fix_end_writes {text} r =
    let size = length-append text (0 ∷ []) in
    let (rest, w) =
      fix_loop_writes (length text) (length text) (fix_start text) r (omega arith)
        (omega (arith, size)) (omega arith) refl in
    (w.taken, omega (arith, w.count), omega (arith, w.whole, size), w.flag)

fix_pair_clean : (c : ℕ) → is_fixed_pair c ≡ false → fix_pair c ≡ c
unfolding is_fixed_pair fix_pair
fix_pair_clean c h = ground arith

fix_pair_nonzero : (c : ℕ) → c ≢ 0 → fix_pair c ≢ 0
unfolding fix_pair
fix_pair_nonzero c h = ground arith

Repairs-unchanged :
    {text out : Bytes} {change cut : Bool}
    → Repairs text out change cut
    → change ≡ false
    → cut ≡ false
    → out ≡ text
Repairs-unchanged done h k = refl
Repairs-unchanged (single {c = c} p q r) h k = ap (λ xs. c ∷ xs) (Repairs-unchanged r h k)
Repairs-unchanged (pair {c = c} p r) h k =
    ground (arith, fix_pair_clean c, λ (e : _ ≡ false). Repairs-unchanged r e k)
Repairs-unchanged (pair_cut p) h k = cc
Repairs-unchanged (triple q r) h k = cc
Repairs-unchanged (triple_cut_one q) h k = cc
Repairs-unchanged (triple_cut_two q) h k = cc

Repairs-AllNonZero :
    {text out : Bytes} {change cut : Bool}
    → Repairs text out change cut
    → cut ≡ false
    → AllNonZero text
    → AllNonZero out
Repairs-AllNonZero done k z = tt
Repairs-AllNonZero (single p q r) k z = (z.0, Repairs-AllNonZero r k z.1)
Repairs-AllNonZero (pair {c = c} p r) k z =
    (fix_pair_nonzero c z.0, (z.1.0, Repairs-AllNonZero r k z.1.1))
Repairs-AllNonZero (pair_cut p) k z = cc
Repairs-AllNonZero (triple q r) k z = (omega arith, (omega arith, Repairs-AllNonZero r k z.1.1.1))
Repairs-AllNonZero (triple_cut_one q) k z = cc
Repairs-AllNonZero (triple_cut_two q) k z = cc

-- A complete text does not grow.
pub Repairs-length :
    {text out : Bytes} {change cut : Bool}
    → Repairs text out change cut
    → cut ≡ false
    → length out ≤ length text
Repairs-length done k = omega arith
Repairs-length (single p q r) k = omega (arith, Repairs-length r k)
Repairs-length (pair p r) k = omega (arith, Repairs-length r k)
Repairs-length (pair_cut p) k = cc
Repairs-length (triple q r) k = omega (arith, Repairs-length r k)
Repairs-length (triple_cut_one q) k = cc
Repairs-length (triple_cut_two q) k = cc

c_string-set :
    (j : ℕ) (xs : Bytes)
    → j < length xs
    → AllNonZero (take j xs)
    → c_string (set xs j 0) ≡ take j xs
unfolding c_string
c_string-set zero [] h z = absurd (omega arith)
c_string-set (suc j) [] h z = absurd (omega arith)
c_string-set zero (x ∷ xs) h z = refl
c_string-set (suc j) (x ∷ xs) h z = ground (arith, c_string-set j xs)

-- For a text with no zero byte that ends with a whole character, FixChar leaves the text repaired
-- character by character.
pub fix_char-Repairs :
    {text out : Bytes} {change : Bool}
    → Repairs text out change false
    → AllNonZero text
    → fix_char text ≡ out
unfolding fix_char
fix_char-Repairs {text} {out} {change = true} r z =
    let (written, index, size, flag) = fix_end_writes r in
    rw flag (
      c_string-set (fix_end text).j (fix_end text).buffer
        (omega (arith, index, size, Repairs-length r refl))
        (rw written (Repairs-AllNonZero r refl z))
      ∙ written)
fix_char-Repairs {change = false} r z =
    let (written, index, size, flag) = fix_end_writes r in
    rw flag (sym (Repairs-unchanged r refl refl))

-- For a text that ends with a whole character, the terminator is written inside the buffer.
pub terminator_in_bounds :
    {text out : Bytes} {change : Bool}
    → Repairs text out change false
    → (fix_end text).j < length (fix_end text).buffer
terminator_in_bounds r =
    let (written, index, size, flag) = fix_end_writes r in
    omega (arith, index, size, Repairs-length r refl)

ascii_single : (c : ℕ) → c < 0x80 → (is_pair c ≡ false) × ((c == 0x8f) ≡ false)
unfolding is_pair
ascii_single c h = ground arith

cut_after_ascii :
    (prefix : Bytes) (c : ℕ)
    → AllAscii prefix
    → is_pair c ≡ true
    → Repairs (prefix ++ c ∷ []) (prefix ++ fix_pair c ∷ 0 ∷ []) (is_fixed_pair c) true
cut_after_ascii [] c a p = pair_cut p
cut_after_ascii (x ∷ xs) c a p =
    let s = ascii_single x a.0 in single s.0 s.1 (cut_after_ascii xs c a.1 p)

-- Where the text is ASCII and then a lead byte that the loop changes with nothing after it, the
-- flag is set and the terminator goes to the index one past the end of the buffer.
pub terminator_out_of_bounds :
    (prefix : Bytes) (c : ℕ)
    → AllAscii prefix
    → is_pair c ≡ true
    → is_fixed_pair c ≡ true
    → ((fix_end (prefix ++ c ∷ [])).fixed ≡ true)
      × ((fix_end (prefix ++ c ∷ [])).j ≡ length (fix_end (prefix ++ c ∷ [])).buffer)
terminator_out_of_bounds prefix c a p q =
    let (written, index, size, flag) = fix_end_writes (cut_after_ascii prefix c a p) in
    (
      flag ∙ q,
      omega (
        arith,
        index,
        size,
        length-append prefix (c ∷ []),
        length-append prefix (fix_pair c ∷ 0 ∷ []),
      ),
    )
