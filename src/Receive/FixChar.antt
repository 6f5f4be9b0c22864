-- ===== src/Receive/FixChar.antt =====
-- realworking/src/receive/WSaxXml.cxx, WSaxXml::FixChar: EUC-JP text is repaired in place, in a
-- buffer of m_xmlLen + 1 bytes that ends in a zero byte. `i` reads and `j` writes.
pub mod InPlace
pub mod Outcome
use others.Base.{
  ℕ, zero, suc, ◌+◌, Bool, true, false, ◌&&◌, ◌||◌, ◌≡◌, [], ◌∷◌, ◌++◌, Bytes, length, get_or, set,
  leb, ltb, ◌==◌, if◌then◌else◌,
}

-- The lead bytes after which the next byte is copied.
unfoldable pub is_pair : ℕ → Bool
is_pair c = leb 0xa1 c && leb c 0xfe || c == 0x8e

-- The new lead byte of such a pair.
unfoldable pub fix_pair : ℕ → ℕ
fix_pair c =
    if c == 0xa1
    then c + 0x54
    else if c == 0xad
    then c + 0x50
    else if leb 0xf5 c && leb c 0xf8
    then 0xaf
    else if leb 0xfd c
    then 0xaf
    else c

-- The branches that set `fixed`.
unfoldable pub is_fixed_pair : ℕ → Bool
is_fixed_pair c = c == 0xa1 || c == 0xad || leb 0xf5 c && leb c 0xf8 || leb 0xfd c

-- The variables of the loop.
pub record FixState : Type 0 where
  pub buffer : Bytes
  pub i : ℕ
  pub j : ℕ
  pub fixed : Bool

-- One round, the increments of both indices included.
unfoldable pub fix_step : FixState → FixState
fix_step s =
    let c = get_or s.buffer s.i 0 in
    if is_pair c
    then record {
      buffer =
          set (set s.buffer s.j (fix_pair c)) (suc s.j)
            (get_or (set s.buffer s.j (fix_pair c)) (suc s.i) 0);
      i = suc (suc s.i);
      j = suc (suc s.j);
      fixed = s.fixed || is_fixed_pair c;
    }
    else if c == 0x8f
    then record {
      buffer = set (set s.buffer s.j 0xa2) (suc s.j) 0xae;
      i = suc (suc (suc s.i));
      j = suc (suc s.j);
      fixed = true;
    }
    else record s { buffer = set s.buffer s.j c; i = suc s.i; j = suc s.j }

-- The loop; each round raises `i`, so as many rounds as there are bytes are enough.
unfoldable pub fix_loop : ℕ → ℕ → FixState → FixState
fix_loop zero len s = s
fix_loop (suc n) len s = elim (ltb s.i len) [ true ↦ fix_loop n len (fix_step s) | false ↦ s ]

unfoldable pub fix_start : Bytes → FixState
fix_start source = record { buffer = source ++ 0 ∷ []; i = 0; j = 0; fixed = false }

unfoldable pub fix_end : Bytes → FixState
fix_end source = fix_loop (length source) (length source) (fix_start source)

-- (const char*)buffer: the bytes before the first zero.
unfoldable pub c_string : Bytes → Bytes
c_string [] = []
c_string (c ∷ cs) = if c == 0 then [] else c ∷ c_string cs

-- m_inputSource after the call.
unfoldable pub fix_char : Bytes → Bytes
fix_char source =
    let s = fix_end source in if s.fixed then c_string (set s.buffer s.j 0) else source

-- The repair without indices, one character after the other: from a text to the bytes written,
-- with two flags, whether a byte changed and whether the text ends inside a character.
pub data Repairs : Bytes → Bytes → Bool → Bool → Type 0 where
  done : Repairs [] [] false false
  single :
      {c : ℕ} {text out : Bytes} {change cut : Bool}
      → is_pair c ≡ false
      → (c == 0x8f) ≡ false
      → Repairs text out change cut
      → Repairs (c ∷ text) (c ∷ out) change cut
  pair :
      {c d : ℕ} {text out : Bytes} {change cut : Bool}
      → is_pair c ≡ true
      → Repairs text out change cut
      → Repairs (c ∷ d ∷ text) (fix_pair c ∷ d ∷ out) (is_fixed_pair c || change) cut
  pair_cut :
      {c : ℕ} → is_pair c ≡ true → Repairs (c ∷ []) (fix_pair c ∷ 0 ∷ []) (is_fixed_pair c) true
  triple :
      {c d e : ℕ} {text out : Bytes} {change cut : Bool}
      → (c == 0x8f) ≡ true
      → Repairs text out change cut
      → Repairs (c ∷ d ∷ e ∷ text) (0xa2 ∷ 0xae ∷ out) true cut
  triple_cut_one : {c : ℕ} → (c == 0x8f) ≡ true → Repairs (c ∷ []) (0xa2 ∷ 0xae ∷ []) true true
  triple_cut_two :
      {c d : ℕ} → (c == 0x8f) ≡ true → Repairs (c ∷ d ∷ []) (0xa2 ∷ 0xae ∷ []) true true
