-- ===== src/Monitor/LogWatch/Watching.antt =====
-- The thread that watches a command log (monitor/LogWatcher.cpp): the choice of the file, the tail
-- of it, and the loop that sends what is read. The files, select() and feof() are arguments; the
-- lines that the watched process adds come whole.
pub mod Marks
pub mod Written
pub mod Telling
pub mod Notices
pub mod Skipping
use others.Base.{
  ℕ, zero, suc, ◌-◌, ◌==◌, Bool, true, false, not, if◌then◌else◌, List, [], ◌∷◌, ◌++◌, length, drop,
  Option, none, some, Bytes,
}
use others.Common.Log.{File, Which}
use others.Monitor.LogWatch.LastLine.{line_buff_size, cut_returns}
use others.Monitor.LogWatch.{
  AoCommandContainer, container_is_empty, empty_container, get_current_log_file, read_batch,
}

abbrev pub onto_first : ℕ → List Bytes → List Bytes
onto_first c [] = []
onto_first c (p ∷ ps) = (c ∷ p) ∷ ps

-- What fgets() reads of a line one call after the other, for a buffer of one byte more than `size`;
-- `room` is what is left of it. A line that fills it is followed by its end of line alone.
unfoldable pub pieces : ℕ → ℕ → Bytes → List Bytes
pieces size zero [] = [] ∷ [] ∷ []
pieces size zero (c ∷ s) = [] ∷ onto_first c (pieces size (size - 1) s)
pieces size (suc room) [] = [] ∷ []
pieces size (suc room) (c ∷ s) = onto_first c (pieces size room s)

-- A string in the buffer ends at its first zero byte.
unfoldable pub until_zero : Bytes → Bytes
until_zero [] = []
until_zero (c ∷ s) = let rest = until_zero s in if c == 0 then [] else c ∷ rest

unfoldable pub trimmed : List Bytes → List Bytes
trimmed [] = []
trimmed (p ∷ ps) = cut_returns (until_zero p) ∷ trimmed ps

-- The strings that WatchLog takes for lines, of the lines of the file.
unfoldable pub buffered : File → List Bytes
buffered [] = []
buffered (l ∷ ls) = trimmed (pieces line_buff_size line_buff_size l) ++ buffered ls

-- The times of change and the contents of the two files when GetCurrentLogFile looks at them.
pub record Look : Type 0 where
  pub time_1 : ℕ
  pub time_2 : ℕ
  pub first : Option File
  pub second : Option File

-- The loop of GetCurrentLogFile: the file, and tailFromTopFlag; `none`: it goes on looking.
unfoldable pub current_log_file : List Look → Bool → Option (Which × Bool)
current_log_file [] top = none
current_log_file (l ∷ ls) top = elim (get_current_log_file l.time_1 l.time_2 l.first l.second) [
  | none ↦ current_log_file ls true
  | some w ↦ some (w, top)
]

-- The position after OpenLogFileTail, in lines.
unfoldable pub open_log_file_tail : Bool → File → ℕ
open_log_file_tail top file = if top then 0 else length file

-- What select() returns.
pub data Selected : Type 0 where
  timeout failed ready : Selected

-- One round of the loop of WatchLog: the lines added to the file before it, the result of select(),
-- and whether the end of the file is reached where fgets() stops.
pub record LogRound : Type 0 where
  pub added : List Bytes
  pub selected : Selected
  pub eof : Bool

-- How WatchLog ends.
pub data Returned : Type 0 where
  goes_on returns_true returns_false : Returned

-- What SendAo is called with, for one batch.
unfoldable pub sent : AoCommandContainer → List AoCommandContainer
sent c = if container_is_empty c then [] else c ∷ []

abbrev pub next_position : Selected → ℕ → File → ℕ
next_position ready pos file = length file
next_position timeout pos file = pos
next_position failed pos file = pos

-- A round after select(), with the batch that fgets() gives and what the rounds after it do.
unfoldable pub after_select :
    Selected
    → AoCommandContainer × Bool
    → Bool
    → List AoCommandContainer × Returned
    → List AoCommandContainer × Returned
after_select timeout batch eof rest = rest
after_select failed batch eof rest = ([], returns_false)
after_select ready batch eof rest =
    if batch.1
    then (sent batch.0, returns_true)
    else if not eof
    then (sent batch.0, returns_true)
    else (sent batch.0 ++ rest.0, rest.1)

-- The loop of WatchLog from a position in the file on: what is sent, and how it ends.
unfoldable pub watch_loop : List LogRound → File → ℕ → List AoCommandContainer × Returned
watch_loop [] file pos = ([], goes_on)
watch_loop (r ∷ rs) file pos =
    let file' = file ++ r.added in
    let rest = watch_loop rs file' (next_position r.selected pos file') in
    after_select r.selected (read_batch (buffered (drop pos file')) empty_container) r.eof rest

-- WatchLog after the choice of the file: `file` gives its contents when it is opened, and `opens`
-- whether fopen(), fcntl() and fseek() work.
unfoldable pub after_choice :
    Option (Which × Bool)
    → (Which → File)
    → Bool
    → List LogRound
    → List AoCommandContainer × Returned
after_choice none file opens rounds = ([], goes_on)
after_choice (some (w, top)) file opens rounds =
    if opens
    then watch_loop rounds (file w) (open_log_file_tail top (file w))
    else ([], returns_false)

-- WatchLog
unfoldable pub watch_log :
    List Look → (Which → File) → Bool → List LogRound → List AoCommandContainer × Returned
watch_log looks file opens rounds = after_choice (current_log_file looks false) file opens rounds
