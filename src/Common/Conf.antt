-- ===== src/Common/Conf.antt =====
-- realworking/src/common/src/common_conf.cxx and include/common_conf.hxx: the reader of the
-- configuration files. A position that is npos is `none`, and sizes are 64-bit words.
pub mod Values
pub mod Lines
use others.Base.{
  ℕ, zero, suc, ◌+◌, ◌-◌, ◌%◌, ◌^◌, Bool, true, false, not, ◌&&◌, ◌||◌, List, [], ◌∷◌, ◌++◌, Option,
  none, some, Bytes, codes, bytes_eq, find, shift, take, drop, is_empty, ◌==◌, if◌then◌else◌,
}

-- MIDDLESTRING
abbrev pub middlestring : Bytes
middlestring = codes "_______***_______"

-- size_t a - b
abbrev pub sub64 : ℕ → ℕ → ℕ
sub64 a b = (a + 2 ^ 64 - b) % 2 ^ 64

-- The test against " \t".
abbrev pub is_blank : ℕ → Bool
is_blank c = c == b' ' || c == b'\t'

-- s.find(c)
unfoldable pub find_char : ℕ → Bytes → Option ℕ
find_char c [] = none
find_char c (d ∷ s) = if d == c then some 0 else shift (find_char c s)

-- s.rfind(c)
unfoldable pub rfind_char : ℕ → Bytes → Option ℕ
rfind_char c [] = none
rfind_char c (d ∷ s) = elim (rfind_char c s) [
  | some i ↦ some (suc i)
  | none ↦ if d == c then some 0 else none
]

-- s.find_first_not_of(" \t")
unfoldable pub find_first_not_blank : Bytes → Option ℕ
find_first_not_blank [] = none
find_first_not_blank (c ∷ s) = if is_blank c then shift (find_first_not_blank s) else some 0

-- s.find_last_not_of(" \t")
unfoldable pub find_last_not_blank : Bytes → Option ℕ
find_last_not_blank [] = none
find_last_not_blank (c ∷ s) = elim (find_last_not_blank s) [
  | some i ↦ some (suc i)
  | none ↦ if is_blank c then none else some 0
]

abbrev pub add_to : ℕ → Option ℕ → Option ℕ
add_to n none = none
add_to n (some i) = some (n + i)

-- s.find(p, from)
unfoldable pub find_from : Bytes → Bytes → Option ℕ → Option ℕ
find_from p s none = none
find_from p s (some from) = add_to from (find p (drop from s))

abbrev pub or_else : Option ℕ → Option ℕ → Option ℕ
or_else none r = r
or_else (some i) r = some i

-- The four searches for the start of a comment, in their order.
unfoldable pub find_comment : Bytes → Option ℕ → Option ℕ
find_comment s first = or_else (find_from (b'\t' ∷ b'#' ∷ []) s first) (
    or_else (find_from (b' ' ∷ b'#' ∷ []) s first) (
      or_else (find_from (b'\t' ∷ b'/' ∷ b'/' ∷ []) s first)
        (find_from (b' ' ∷ b'/' ∷ b'/' ∷ []) s first)))

abbrev pub position : Option ℕ → ℕ
position none = 2 ^ 64 - 1
position (some i) = i

-- strtmp2 after the comment is cut off by substr(0, last-first).
unfoldable pub cut_comment : Bytes → Bytes
cut_comment s =
    let first = find_first_not_blank s in
    elim (find_comment s first) [ some last ↦ take (sub64 last (position first)) s | none ↦ s ]

abbrev pub slice : Bytes → Option ℕ → Option ℕ → Option Bytes
slice s none last = none
slice s (some first) none = none
slice s (some first) (some last) = some (take (sub64 last first + 1) (drop first s))

-- The text after `=`: the value, unless the line is dropped. `first` is the position before the cut.
unfoldable pub value_of : Bytes → Option Bytes
value_of s = slice (cut_comment s) (find_first_not_blank s) (find_last_not_blank (cut_comment s))

-- The text before `=`, trimmed.
unfoldable pub key_of : Bytes → Option Bytes
key_of s = slice s (find_first_not_blank s) (find_last_not_blank s)

-- The state of the functor analyzeIni: strSect, and the map that it fills.
pub record Ini : Type 0 where
  pub sect : Bytes
  pub entries : List (Bytes × Bytes)

-- (*pMap)[k] = v
unfoldable pub assign : Bytes → Bytes → List (Bytes × Bytes) → List (Bytes × Bytes)
assign k v [] = (k, v) ∷ []
assign k v ((j, w) ∷ m) = if bytes_eq j k then (k, v) ∷ m else (j, w) ∷ assign k v m

unfoldable pub lookup : Bytes → List (Bytes × Bytes) → Option Bytes
lookup k [] = none
lookup k ((j, v) ∷ m) = if bytes_eq j k then some v else lookup k m

abbrev pub map_key : Bytes → Bytes → Bytes
map_key sect key = sect ++ middlestring ++ key

-- The line's section name, if the line is taken for a section: both brackets, not next to each
-- other in the order `][`.
unfoldable pub section_of : Bytes → Option Bytes
section_of line = elim (find_char b'[' line) [
  | none ↦ none
  | some first ↦ elim (rfind_char b']' line) [
    | none ↦ none
    | some last ↦
        if first == last + 1
        then none
        else some (take (sub64 (sub64 last first) 1) (drop (first + 1) line))
  ]
]

abbrev store : Ini → Option Bytes → Option Bytes → Ini
store s none v = s
store s (some k) none = s
store s (some k) (some v) = record s { entries = assign (map_key s.sect k) v s.entries }

-- A line that is no section line.
unfoldable pub analyze_item : Ini → Bytes → Ini
analyze_item s line = if is_empty s.sect then s else elim (find_char b'=' line) [
  | none ↦ s
  | some first ↦ store s (key_of (take first line)) (value_of (drop (first + 1) line))
]

-- analyzeIni::operator()
unfoldable pub analyze : Ini → Bytes → Ini
analyze s line = elim (section_of line) [
  | some sect ↦ record s { sect = sect }
  | none ↦ analyze_item s line
]

-- for_each over the lines of the file
unfoldable pub analyze_all : Ini → List Bytes → Ini
analyze_all s [] = s
analyze_all s (line ∷ lines) = analyze_all (analyze s line) lines

abbrev prepend_byte : ℕ → List Bytes → List Bytes
prepend_byte c [] = (c ∷ []) ∷ []
prepend_byte c (l ∷ ls) = (c ∷ l) ∷ ls

-- The lines that the getline loop collects: the text after the last newline is one, too.
unfoldable pub split_lines : Bytes → List Bytes
split_lines [] = [] ∷ []
split_lines (c ∷ text) =
    if c == b'\n' then [] ∷ split_lines text else prepend_byte c (split_lines text)

-- RTWConf::open: `none` is a file that cannot be opened; the result holds m_InitMap.
unfoldable pub open_conf : Option Bytes → List (Bytes × Bytes) → Bool × List (Bytes × Bytes)
open_conf none m = (false, m)
open_conf (some text) m =
    let ini = analyze_all (record { sect = []; entries = m }) (split_lines text) in
    (not (is_empty ini.entries), ini.entries)

-- RTWConf::read
unfoldable pub read : List (Bytes × Bytes) → Bytes → Bytes → Bytes
read m sect key = elim (lookup (map_key sect key) m) [ some v ↦ v | none ↦ [] ]
