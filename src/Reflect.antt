-- ===== src/Reflect.antt =====
-- The reflect process (realworking/src/reflect): the result files of the receiving process are
-- polled, merged into one and handed to a script. Files, directories and commands are arguments.
pub mod Files
pub mod Merge
pub mod Cycle
pub mod Startup
mod Tests
use others.Base.{
  ℕ, suc, zero, ◌+◌, ◌-◌, ◌/◌, ◌%◌, Bool, true, false, not, ◌&&◌, if◌then◌else◌, List, [], ◌∷◌,
  ◌++◌, length, Option, none, some, Bytes, ltb, leb, take, drop, starts_with, ◌==◌,
}

-- FILE_OP_BUFFER_SIZE is `buffer` below.

-- Whether the read and the write of each round of the loop of MergeFile go wrong.
pub data Round : Type 0 where
  good : Round
  bad_read : Round
  bad_write : Round

-- The loop of MergeFile: `left` bytes to go at the position `at` of the source, the destination so
-- far; each round moves at most `buffer` bytes. The list says how the rounds end; `none`: it is
-- too short.
unfoldable pub merge_loop : ℕ → Bytes → ℕ → ℕ → Bytes → List Round → Option (Bool × Bytes)
merge_loop buffer src at zero dest rounds = some (true, dest)
merge_loop buffer src at (suc l) dest [] = none
merge_loop buffer src at (suc l) dest (good ∷ rounds) =
    let op = if ltb buffer (suc l) then buffer else suc l in
    merge_loop buffer src (at + op) (suc l - op) (dest ++ take op (drop at src)) rounds
merge_loop buffer src at (suc l) dest (bad_read ∷ rounds) = some (false, dest)
merge_loop buffer src at (suc l) dest (bad_write ∷ rounds) = some (false, dest)

-- MergeFile: the source, if it can be opened, and whether the destination can.
unfoldable pub merge_file : ℕ → Option Bytes → Bool → Bytes → List Round → Option (Bool × Bytes)
merge_file buffer none opens dest rounds = some (false, dest)
merge_file buffer (some src) opens dest rounds =
    if opens then merge_loop buffer src 0 (length src) dest rounds else some (false, dest)

-- MergeCsvFile, over the polled files in their order: each with its contents, whether the
-- destination opens, and its rounds.
unfoldable pub merge_csv_file :
    ℕ → List (Option Bytes × Bool × List Round) → Bytes → Option (Bool × Bytes)
merge_csv_file buffer [] dest = some (true, dest)
merge_csv_file buffer (f ∷ fs) dest = elim (merge_file buffer f.0 f.1 dest f.2) [
  | none ↦ none
  | some r ↦ elim r.0 [ true ↦ merge_csv_file buffer fs r.1 | false ↦ some (false, r.1) ]
]

-- The test on one directory entry in PollCsvFile: a file, the prefix, the extension. `rfind` is
-- the last position of the extension, and the sum is made modulo 2 ^ 64.
unfoldable pub rfind : Bytes → Bytes → Option ℕ
rfind p [] = if starts_with p [] then some 0 else none
rfind p (c ∷ s) =
    let rest = rfind p s in
    elim rest [ some i ↦ some (suc i) | none ↦ if starts_with p (c ∷ s) then some 0 else none ]

-- npos, and size() - strlen on size_t
abbrev pub position : Option ℕ → ℕ
position none = 18446744073709551615
position (some i) = i

abbrev pub size_minus : ℕ → ℕ → ℕ
size_minus a b = if leb b a then a - b else a + 18446744073709551616 - b

unfoldable pub is_polled : Bytes → Bytes → Bool → Bytes → Bool
is_polled prefix ext is_file name =
    is_file
    && starts_with prefix name
    && (position (rfind ext name) == size_minus (length name) (length ext))

-- The names that PollCsvFile keeps, before it sorts them.
unfoldable pub polled : Bytes → Bytes → List (Bool × Bytes) → List Bytes
polled prefix ext [] = []
polled prefix ext (e ∷ es) =
    let rest = polled prefix ext es in if is_polled prefix ext e.0 e.1 then e.1 ∷ rest else rest

-- st_mode & S_IFDIR is not 0
abbrev is_dir_mode : ℕ → Bool
is_dir_mode mode = mode / 16384 % 2 == 1

-- IsFile and IsDir, of the st_mode that stat() gives; `none`: it fails.
unfoldable pub is_file : Option ℕ → Bool
is_file none = false
is_file (some mode) = not (is_dir_mode mode)

unfoldable pub is_dir : Option ℕ → Bool
is_dir none = false
is_dir (some mode) = is_dir_mode mode

-- CheckDir: whether the directory can be used, and its name afterwards.
unfoldable pub last : Bytes → Option ℕ
last [] = none
last (c ∷ []) = some c
last (c ∷ d ∷ s) = last (d ∷ s)

-- at(size() - 1) of an empty name throws: `none`.
unfoldable pub check_dir : Option ℕ → Bool → Bytes → Option (Bool × Bytes)
check_dir mode permitted name =
    if not (is_dir mode)
    then some (false, name)
    else if not permitted
    then some (false, name)
    else (elim (last name) [
      | none ↦ none
      | some c ↦ some (true, if c == 47 then name else name ++ 47 ∷ [])
    ])
