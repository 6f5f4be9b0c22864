-- ===== src/Common/Conf/Lines.antt =====
-- Whole lines of a configuration file of common_conf.cxx, and what `read` finds afterwards.
use Prim.Native.Nat.add
use native.Mathlib.Numerals.{add-one}
use others.Base.{
  ℕ, zero, suc, ◌+◌, ◌^◌, ◌<◌, ◌≡◌, ◌≢◌, refl, ap, arith, false, List, [], ◌∷◌, ◌++◌, none, some,
  Bytes, length, take, drop, bytes_eq, bytes_eq→eq, bytes_eq_refl, is_empty, if◌then◌else◌, inl,
  inr, Bool-cases,
}
use others.Common.Conf.{
  Ini, find_char, key_of, assign, lookup, map_key, section_of, analyze_item, analyze, read,
}
use others.Common.Conf.Values.{IsWord, spaces, first-spaces, last-word, slice-word, value_of-word}

-- The map after an assignment.
pub lookup-assign :
    (k j v : Bytes) (m : List (Bytes × Bytes))
    → lookup j (assign k v m) ≡ (if bytes_eq k j then some v else lookup j m)
unfolding lookup assign
lookup-assign k j v [] = refl
lookup-assign k j v ((i, w) ∷ m) = elim (Bool-cases (bytes_eq i k)) [
  | inl e ↦ ground (arith, bytes_eq→eq i k e)
  | inr e ↦ ground (arith, bytes_eq→eq i j, bytes_eq→eq k j, bytes_eq_refl j, lookup-assign k j v m)
]

-- No byte that structures a line.
abbrev pub IsPlain : Bytes → Type 0
IsPlain [] = Unit {0}
IsPlain (c ∷ s) = (c ≢ b'[') × (c ≢ b']') × (c ≢ b'=') × IsPlain s

find_char-none : (s : Bytes) → IsPlain s → find_char b'[' s ≡ none
unfolding find_char
find_char-none [] h = refl
find_char-none (c ∷ s) h = ground (arith, find_char-none s h.3)

find_char-equals : (s t : Bytes) → IsPlain s → find_char b'=' (s ++ b'=' ∷ t) ≡ some (length s)
unfolding find_char
find_char-equals [] t h = refl
find_char-equals (c ∷ s) t h = ground (arith, find_char-equals s t h.3)

-- A line of a configuration file: a key, `=`, spaces, and a value.
abbrev pub item : Bytes → ℕ → Bytes → Bytes
item key n value = key ++ b'=' ∷ (spaces n ++ value)

bracket_free :
    (key : Bytes) (n : ℕ) (value : Bytes)
    → IsPlain key
    → IsPlain value
    → find_char b'[' (item key n value) ≡ none
unfolding find_char
bracket_free [] zero value h k = rw (find_char-none value k) refl
bracket_free [] (suc n) value h k = ground (arith, bracket_free [] n value h k)
bracket_free (c ∷ key) n value h k = ground (arith, bracket_free key n value h.3 k)

no_section :
    (key : Bytes) (n : ℕ) (value : Bytes)
    → IsPlain key
    → IsPlain value
    → section_of (item key n value) ≡ none
unfolding section_of
no_section key n value h k = ground (arith, bracket_free key n value h k)

take-front {ℓ} : {A : Type ℓ} (s t : List A) → take (length s) (s ++ t) ≡ s
take-front [] t = refl
take-front (c ∷ s) t = ap (λ x. c ∷ x) (take-front s t)

drop-front {ℓ} : {A : Type ℓ} (c : A) (s t : List A) → drop (length s + 1) (s ++ c ∷ t) ≡ t
drop-front c [] t = refl
drop-front c (d ∷ s) t = rw add-one (rw add-one at (drop-front c s t))

key_of-word :
    (c : ℕ) (s : Bytes) → IsWord (c ∷ s) → length s < 2 ^ 64 → key_of (c ∷ s) ≡ some (c ∷ s)
unfolding key_of
key_of-word c s w small =
    rw (first-spaces 0 c s w.0 w.1, last-word c s w) (rw add.zero at (slice-word 0 c s small))

-- An item line within a section stores its value under the section and the key.
pub analyze-item :
    (s : Ini) (k : ℕ) (key : Bytes) (n v : ℕ) (value : Bytes)
    → is_empty s.sect ≡ false
    → IsWord (k ∷ key)
    → IsPlain (k ∷ key)
    → IsWord (v ∷ value)
    → IsPlain (v ∷ value)
    → length key < 2 ^ 64
    → length value < 2 ^ 64
    → analyze s (item (k ∷ key) n (v ∷ value))
      ≡ record s { entries = assign (map_key s.sect (k ∷ key)) (v ∷ value) s.entries }
unfolding analyze analyze_item
analyze-item s k key n v value inside kw kp vw vp ks vs = ground (
  arith,
  no_section (k ∷ key) n (v ∷ value) kp vp,
  find_char-equals (k ∷ key) (spaces n ++ v ∷ value) kp,
  take-front (k ∷ key) (b'=' ∷ (spaces n ++ v ∷ value)),
  drop-front b'=' (k ∷ key) (spaces n ++ v ∷ value),
  key_of-word k key kw ks,
  value_of-word n v value vw vs,
)

-- Within a section, a line of a key, `=`, spaces and a value, both without blanks, brackets and
-- `=`, makes the value what `read` returns for the section and the key, and every other map key
-- reads as before.
pub read-item :
    (s : Ini) (k : ℕ) (key : Bytes) (n v : ℕ) (value : Bytes)
    → is_empty s.sect ≡ false
    → IsWord (k ∷ key)
    → IsPlain (k ∷ key)
    → IsWord (v ∷ value)
    → IsPlain (v ∷ value)
    → length key < 2 ^ 64
    → length value < 2 ^ 64
    → (sect other : Bytes)
    → let t = analyze s (item (k ∷ key) n (v ∷ value)) in
      read t.entries sect other ≡ (
        if bytes_eq (map_key s.sect (k ∷ key)) (map_key sect other)
        then v ∷ value
        else read s.entries sect other)
unfolding read
read-item s k key n v value inside kw kp vw vp ks vs sect other =
    rw (analyze-item s k key n v value inside kw kp vw vp ks vs) (
      ground (
        arith,
        lookup-assign (map_key s.sect (k ∷ key)) (map_key sect other) (v ∷ value) s.entries,
      ))
