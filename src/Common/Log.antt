-- ===== src/Common/Log.antt =====
-- The log that turns between two files: RTWLog in common/src/common_log.cxx.
-- The file system is the state of the two files; the times of change are arguments.
pub mod Rotation
use others.Base.{
  ℕ, suc, ◌+◌, ◌≡◌, Bool, true, false, not, ◌&&◌, if◌then◌else◌, List, [], ◌∷◌, ◌++◌, length,
  Option, none, some, Bytes, bytes_eq, codes, ltb, ◌==◌, ◌||◌,
}

-- A file as its messages, each without the end of line that WriteLog puts behind it. A message may
-- have ends of lines in it, and has no zero byte.
abbrev pub File : Type 0
File = List Bytes

-- LOG_FILE_END
abbrev pub log_file_end : Bytes
log_file_end = codes "[END]"

abbrev pub size : File → ℕ
size [] = 0
size (l ∷ ls) = suc (length l) + size ls

-- The two names: m_baseName with ".1" and with ".2".
pub data Which : Type 0 where
  file_1 file_2 : Which

abbrev pub other : Which → Which
other file_1 = file_2
other file_2 = file_1

-- What stat and tail tell of a file that exists; `end_flag` is CheckEnd.
pub record Stat : Type 0 where
  pub mtime : ℕ
  pub file_size : ℕ
  pub end_flag : Bool

unfoldable pub has_return : Bytes → Bool
has_return [] = false
has_return (c ∷ s) = c == 10 || has_return s

-- The last line of a message, which `tail -n 1` gives.
unfoldable pub last_part : Bytes → Bytes
last_part [] = []
last_part (c ∷ s) = let rest = last_part s in if has_return (c ∷ s) then rest else c ∷ s

-- CheckEnd: whether the last line is the end line. `none`: the file is empty, and the character
-- before the front of the result of `tail` is asked for.
unfoldable pub check_end : File → Option Bool
check_end [] = none
check_end (l ∷ []) = some (bytes_eq (last_part l) log_file_end)
check_end (l ∷ m ∷ ls) = check_end (m ∷ ls)

-- How OpenFile opens: for appending at a size, or truncated.
pub data Mode : Type 0 where
  append_at : Option ℕ → Mode
  truncate : Mode

-- The choice of OpenFile for a log of two files. The size of a file that does not exist is a
-- variable that is not set: `append_at none`.
unfoldable pub choose : Option Stat → Option Stat → Which × Mode
choose (some a) (some b) =
    if a.end_flag && not b.end_flag
    then (file_2, append_at (some b.file_size))
    else if not a.end_flag && b.end_flag
    then (file_1, append_at (some a.file_size))
    else if a.end_flag && b.end_flag
    then (if ltb a.mtime b.mtime then (file_1, truncate) else (file_2, truncate))
    else (if ltb a.mtime b.mtime
        then (file_2, append_at (some b.file_size))
        else (file_1, append_at (some a.file_size)))
choose (some a) none =
    if not a.end_flag then (file_1, append_at (some a.file_size)) else (file_2, append_at none)
choose none (some b) =
    if not b.end_flag then (file_2, append_at (some b.file_size)) else (file_1, append_at none)
choose none none = (file_1, append_at (some 0))

-- The log: m_logName, the file it names, the other file, and m_maxSize.
pub record RtwLog : Type 0 where
  pub log_name : Which
  pub current : File
  pub previous : Option File
  pub max_size : ℕ

-- The log after OpenFile where no file exists.
unfoldable pub new_log : ℕ → RtwLog
new_log max = record { log_name = file_1; current = []; previous = none; max_size = max }

unfoldable pub check_size : RtwLog → RtwLog
check_size s =
    if ltb 0 s.max_size && ltb s.max_size (size s.current)
    then record s {
      log_name = other s.log_name;
      current = [];
      previous = some (s.current ++ log_file_end ∷ []);
    }
    else s

-- WriteLog
unfoldable pub log : Bytes → RtwLog → RtwLog
log message s = let s' = check_size s in record s' { current = s'.current ++ message ∷ [] }

unfoldable pub log_all : List Bytes → RtwLog → RtwLog
log_all [] s = s
log_all (m ∷ ms) s = log_all ms (log m s)

-- OpenFile on the two files that a log left behind, with any times of change.
unfoldable pub stat_of : ℕ → Option File → Option (Option Stat)
stat_of t none = some none
stat_of t (some f) = elim (check_end f) [
  | none ↦ none
  | some e ↦ some (some (record { mtime = t; file_size = size f; end_flag = e }))
]

abbrev pub chosen : Option (Option Stat) → Option (Option Stat) → Option (Which × Mode)
chosen none b = none
chosen (some a) none = none
chosen (some a) (some b) = some (choose a b)

-- The files with the names ".1" and ".2".
abbrev pub file_named : Which → RtwLog → Option File
file_named w s = elim s.log_name [
  | file_1 ↦ elim w [ file_1 ↦ some s.current | file_2 ↦ s.previous ]
  | file_2 ↦ elim w [ file_1 ↦ s.previous | file_2 ↦ some s.current ]
]

unfoldable pub reopen : ℕ → ℕ → RtwLog → Option (Which × Mode)
reopen t1 t2 s = chosen (stat_of t1 (file_named file_1 s)) (stat_of t2 (file_named file_2 s))
