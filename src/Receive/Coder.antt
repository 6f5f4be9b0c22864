-- ===== src/Receive/Coder.antt =====
-- realworking/src/receive/WCoder.cxx, WCoder::CheckChars: the lead bytes of four vendor rows of
-- Shift_JIS are moved to the rows that the database knows. A value holds no zero byte.
use others.Base.{
  ℕ, ◌≤◌, ◌<◌, ◌≢◌, ◌⊎◌, ◌∙◌, ◌-◌, ◌≡◌, refl, ap, arith, Bool, true, false, ◌&&◌, ◌||◌, List, [],
  ◌∷◌, Bytes, length, map, get_or, leb, ◌==◌, if◌then◌else◌, inl, inr, Bool-cases,
}

-- The tests of the loop under which a trail byte is skipped by `i++`.
unfoldable pub skips_trail : ℕ → Bool
skips_trail c =
    leb 0x81 c && leb c 0x9f
    || leb 0xe0 c && leb c 0xef
    || c == 0xf0
    || (c == 0xf2 || c == 0xf3)
    || c == 0xf4
    || leb 0xf5 c

unfoldable pub fix_lead : ℕ → ℕ
fix_lead c =
    if c == 0xf0
    then c - 0x6f
    else if c == 0xf2 || c == 0xf3
    then c - 5
    else if c == 0xf4
    then c - 0x6d
    else c

unfoldable pub is_fixed : ℕ → Bool
is_fixed c = c == 0xf0 || (c == 0xf2 || c == 0xf3) || c == 0xf4

abbrev onto : ℕ → Bool → Bytes × Bool → Bytes × Bool
onto c b (out, fixed) = (c ∷ out, b || fixed)

-- The loop: the new bytes, and the flag `fixed`.
unfoldable pub check_loop : Bytes → Bytes × Bool
check_loop [] = ([], false)
check_loop (c ∷ []) = (fix_lead c ∷ [], is_fixed c)
check_loop (c ∷ d ∷ rest) = elim (skips_trail c) [
  | true ↦ onto (fix_lead c) (is_fixed c) (onto d false (check_loop rest))
  | false ↦ onto c false (check_loop (d ∷ rest))
]

unfoldable pub check_chars : Bytes → Bytes
unfolding check_loop
check_chars value = let (out, fixed) = check_loop value in if fixed then out else value

skips-fix_lead : (c : ℕ) → skips_trail c ≡ true → skips_trail (fix_lead c) ≡ true
unfolding skips_trail fix_lead
skips-fix_lead c h = ground arith

fix_lead_single : (c : ℕ) → skips_trail c ≡ false → fix_lead c ≡ c
unfolding skips_trail fix_lead
fix_lead_single c h = ground arith

fix_lead_clean : (c : ℕ) → is_fixed c ≡ false → fix_lead c ≡ c
unfolding is_fixed fix_lead
fix_lead_clean c h = ground arith

check_loop-false : (v : Bytes) → (check_loop v).1 ≡ false → (check_loop v).0 ≡ v
unfolding check_loop
check_loop-false [] h = refl
check_loop-false (c ∷ []) h = ground (arith, fix_lead_clean c)
check_loop-false (c ∷ d ∷ rest) h =
    ground (arith, fix_lead_clean c, check_loop-false rest, check_loop-false (d ∷ rest))

pub check_chars-eq-loop : (v : Bytes) → check_chars v ≡ (check_loop v).0
unfolding check_chars
check_chars-eq-loop v = ground (arith, check_loop-false v)

length-check_loop : (v : Bytes) → length (check_loop v).0 ≡ length v
unfolding check_loop
length-check_loop [] = refl
length-check_loop (c ∷ []) = refl
length-check_loop (c ∷ d ∷ rest) =
    ground (arith, length-check_loop rest, length-check_loop (d ∷ rest))

-- The text keeps its length.
pub length-check_chars : (v : Bytes) → length (check_chars v) ≡ length v
length-check_chars v = rw check_chars-eq-loop (length-check_loop v)

check_loop_single :
    (c : ℕ) (v : Bytes) → skips_trail c ≡ false → (check_loop (c ∷ v)).0 ≡ c ∷ (check_loop v).0
unfolding check_loop
check_loop_single c [] h = ap (λ x. x ∷ []) (fix_lead_single c h)
check_loop_single c (d ∷ rest) h = ground arith

check_loop_double :
    (c d : ℕ) (v : Bytes)
    → skips_trail c ≡ true
    → (check_loop (c ∷ d ∷ v)).0 ≡ fix_lead c ∷ d ∷ (check_loop v).0
unfolding check_loop
check_loop_double c d v h = ground arith

-- A character of Shift_JIS: one byte, or a lead byte and a trail byte.
pub data Char : Type 0 where
  single : ℕ → Char
  double : ℕ → ℕ → Char

-- The lead bytes of Shift_JIS, with all rows of the vendors but that of 0xf1.
abbrev pub IsLead : ℕ → Type 0
IsLead c = (((0x81 ≤ c) × (c ≤ 0x9f)) ⊎ (0xe0 ≤ c)) × (c ≢ 0xf1)

-- The bytes that stand alone: ASCII without the zero byte, 0x80 and the half-width katakana.
abbrev pub IsSingle : ℕ → Type 0
IsSingle c = ((0 < c) × (c ≤ 0x80)) ⊎ ((0xa0 ≤ c) × (c ≤ 0xdf))

unfoldable pub IsText : List Char → Type 0
IsText [] = Unit {0}
IsText (single c ∷ cs) = IsSingle c × IsText cs
IsText (double c d ∷ cs) = IsLead c × (0 < d) × IsText cs

unfoldable pub bytes_of : List Char → Bytes
bytes_of [] = []
bytes_of (single c ∷ cs) = c ∷ bytes_of cs
bytes_of (double c d ∷ cs) = c ∷ d ∷ bytes_of cs

-- The four rows that are moved, and where to.
unfoldable pub moved : ℕ → ℕ
moved c =
    if c == 0xf0
    then 0x81
    else if c == 0xf2
    then 0xed
    else if c == 0xf3
    then 0xee
    else if c == 0xf4
    then 0x87
    else c

abbrev pub move : Char → Char
move (single c) = single c
move (double c d) = double (moved c) d

single-skips_trail : (c : ℕ) → IsSingle c → skips_trail c ≡ false
unfolding skips_trail
single-skips_trail c h = ground arith

lead-skips_trail : (c : ℕ) → IsLead c → skips_trail c ≡ true
unfolding skips_trail
lead-skips_trail c h = ground arith

fix_lead-moved : (c : ℕ) → fix_lead c ≡ moved c
unfolding fix_lead moved
fix_lead-moved c = ground arith

check_loop-move :
    (cs : List Char) → IsText cs → (check_loop (bytes_of cs)).0 ≡ bytes_of (map move cs)
unfolding bytes_of IsText
check_loop-move [] h = unfold check_loop in refl
check_loop-move (single c ∷ cs) (s, h) =
    check_loop_single c (bytes_of cs) (single-skips_trail c s)
    ∙ ap (λ t. c ∷ t) (check_loop-move cs h)
check_loop-move (double c d ∷ cs) (l, z, h) =
    check_loop_double c d (bytes_of cs) (lead-skips_trail c l)
    ∙ rw (fix_lead-moved c, check_loop-move cs h) refl

-- In a text of whole Shift_JIS characters, with no zero byte and none of them in the row of 0xf1,
-- CheckChars moves the rows 0xf0, 0xf2, 0xf3 and 0xf4 to 0x81, 0xed, 0xee and 0x87 and changes nothing
-- else.
pub check_chars-move :
    (cs : List Char) → IsText cs → check_chars (bytes_of cs) ≡ bytes_of (map move cs)
check_chars-move cs h = check_chars-eq-loop (bytes_of cs) ∙ check_loop-move cs h

fix_lead_idem : (c : ℕ) → fix_lead (fix_lead c) ≡ fix_lead c
unfolding fix_lead
fix_lead_idem c = ground arith

check_loop_idem : (v : Bytes) → (check_loop (check_loop v).0).0 ≡ (check_loop v).0
check_loop_idem [] = unfold check_loop in refl
check_loop_idem (c ∷ []) = unfold check_loop in ap (λ x. x ∷ []) (fix_lead_idem c)
check_loop_idem (c ∷ d ∷ rest) = elim (Bool-cases (skips_trail c)) [
  | inl two ↦ rw (
    check_loop_double c d rest two,
    check_loop_double (fix_lead c) d (check_loop rest).0 (skips-fix_lead c two),
    check_loop_idem rest,
    fix_lead_idem c,
  )
  | inr one ↦ rw (
    check_loop_single c (d ∷ rest) one,
    check_loop_single c (check_loop (d ∷ rest)).0 one,
    check_loop_idem (d ∷ rest),
  )
]

-- A second CheckChars changes nothing.
pub check_chars_idem : (v : Bytes) → check_chars (check_chars v) ≡ check_chars v
check_chars_idem v = simp check_chars-eq-loop (check_loop_idem v)

-- Behind the lead byte 0xf1 a trail byte 0xf0, with a byte after it, is rewritten to 0x81.
pub f1_trail_rewritten :
    (d : ℕ) (rest : Bytes) → get_or (check_chars (0xf1 ∷ 0xf0 ∷ d ∷ rest)) 1 0 ≡ 0x81
unfolding check_loop skips_trail fix_lead
f1_trail_rewritten d rest = rw check_chars-eq-loop refl
