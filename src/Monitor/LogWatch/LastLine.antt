-- ===== src/Monitor/LogWatch/LastLine.antt =====
-- The end of a log file as monitor/LogAnalyzer.cpp reads it, backwards through a stream, and what
-- LogAnalyzer asks of a file by its name. A file that exists is its bytes; `none` is a file that
-- cannot be read.
pub mod Backwards
pub mod Reading
use others.Base.{
  ℕ, zero, suc, ◌+◌, ◌-◌, Bool, true, false, not, ◌&&◌, ◌||◌, ◌==◌, if◌then◌else◌, List, [], ◌∷◌,
  ◌++◌, Option, none, some, Bytes, drop, get_elem?, is_empty, length, ltb,
}
use others.Common.Log.{Which, file_1, file_2}
use others.Monitor.LogWatch.{is_log_end}

-- LINE_BUFF_SIZE
abbrev pub line_buff_size : ℕ
line_buff_size = 10240

-- c == '\n' || c == '\r'
abbrev pub is_return : ℕ → Bool
is_return c = c == 10 || c == 13

-- EOF as a char
abbrev pub eof_char : ℕ
eof_char = 255

-- What fgetc() gives at a position, as a char.
abbrev pub char_at : Bytes → ℕ → ℕ
char_at f i = elim (get_elem? f i) [ none ↦ eof_char | some c ↦ c ]

-- fseek(fp, -2L, SEEK_CUR), which does nothing where it would leave the file
abbrev pub back_2 : ℕ → ℕ
back_2 (suc (suc p)) = p
back_2 p = p

-- The loop that skips ends of lines: `c` is the character read last, and the number is the
-- position behind it. The result is the position and the character where it ends.
unfoldable pub skip_returns : Bytes → ℕ → ℕ → ℕ × ℕ
skip_returns f c zero = (0, c)
skip_returns f c (suc zero) = if is_return c then (0, c) else (1, c)
skip_returns f c (suc (suc zero)) = if is_return c then (0, c) else (2, c)
skip_returns f c (suc (suc (suc p))) =
    let rest : ℕ × ℕ = elim (get_elem? f (suc p)) [
      | none ↦ (back_2 (suc p), eof_char)
      | some d ↦ skip_returns f d (suc (suc p))
    ] in
    if is_return c then rest else (suc (suc (suc p)), c)

-- The rest of the loop, with the flag cleared: where it leaves the stream. It steps back over the
-- character read and the one before it, and reads this one.
unfoldable pub line_start : Bytes → ℕ → ℕ → ℕ
line_start f c zero = 0
line_start f c (suc zero) = if is_return c then 1 else 0
line_start f c (suc (suc zero)) = if is_return c then 2 else 0
line_start f c (suc (suc (suc p))) =
    let rest = line_start f (char_at f (suc p)) (suc (suc p)) in
    if is_return c then suc (suc (suc p)) else rest

-- The position after the first fgetc(), behind fseek(fp, -1L, SEEK_END): the end of the file.
unfoldable pub seek_last_line : Bytes → ℕ → ℕ
seek_last_line f n = let s = skip_returns f (char_at f (n - 1)) n in line_start f s.1 s.0

-- fgets() for a buffer of one byte more than the number, up to the first zero byte
unfoldable pub fgets : ℕ → Bytes → Bytes
fgets zero s = []
fgets (suc n) [] = []
fgets (suc n) (c ∷ s) =
    let rest = fgets n s in if c == 0 then [] else if c == 10 then c ∷ [] else c ∷ rest

-- The last loop, which cuts ends of lines off the line.
unfoldable pub cut_returns : Bytes → Bytes
cut_returns [] = []
cut_returns (c ∷ s) = let r = cut_returns s in if is_empty r && is_return c then [] else c ∷ r

-- ReadLastLineOfFile
unfoldable pub read_last_line_of_file : Option Bytes → Option Bytes
read_last_line_of_file none = none
read_last_line_of_file (some f) =
    some (cut_returns (fgets line_buff_size (drop (seek_last_line f (length f)) f)))

-- IsFileExist
abbrev pub is_file_exist : Option Bytes → Bool
is_file_exist none = false
is_file_exist (some f) = true

-- IsEmptyFile
abbrev pub is_empty_file : Option Bytes → Bool
is_empty_file none = false
is_empty_file (some f) = is_empty f

-- IsEndLogFile: `none` is -1
unfoldable pub is_end_log_file : Option Bytes → Option Bool
is_end_log_file f = elim (read_last_line_of_file f) [ none ↦ none | some l ↦ some (is_log_end l) ]

-- The test of GetCurrentLogFile on one file
abbrev is_zero : Option Bool → Bool
is_zero none = false
is_zero (some b) = not b

unfoldable pub is_chosen : Option Bytes → Bool
is_chosen f = is_file_exist f && not (is_empty_file f) && is_zero (is_end_log_file f)

-- GetNewerFile, for two files whose times can be asked for
abbrev pub get_newer_file : ℕ → ℕ → Which
get_newer_file t1 t2 = if ltb t2 t1 then file_1 else file_2
