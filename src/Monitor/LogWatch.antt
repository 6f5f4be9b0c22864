-- ===== src/Monitor/LogWatch.antt =====
-- The command log that the monitor reads: monitor/LogAnalyzer.cpp, the choice of the file and the
-- reading of a batch of lines in monitor/LogWatcher.cpp, and the file of commands that
-- monitor/AoSender.cpp makes of a batch, with the types of monitor/include/MonitorCommon.h.
pub mod Batch
pub mod LastLine
pub mod Watching
use others.Base.{
  ℕ, ◌+◌, ◌≡◌, Bool, true, false, not, ◌&&◌, ◌||◌, ◌==◌, if◌then◌else◌, List, [], ◌∷◌, ◌++◌, length,
  Option, none, some, Bytes, codes, find, drop, is_empty, ltb,
}
use others.Common.Log.{File, Which, file_1, file_2}

pub data AoCmdType : Type 0 where
  unknown hc_counter work_counter other_counter common : AoCmdType

pub record AoCommand : Type 0 where
  pub type : AoCmdType
  pub cmd_content : Bytes

abbrev pub no_command : AoCommand
no_command = record { type = unknown; cmd_content = [] }

abbrev pub is_unknown : AoCmdType → Bool
is_unknown unknown = true
is_unknown _ = false

-- CMD_LOG_*_FLAG
abbrev pub hc_flag : Bytes
hc_flag = codes "<HC_COUNT>"

abbrev pub work_flag : Bytes
work_flag = codes "<WORK_COUNT>"

abbrev pub other_flag : Bytes
other_flag = codes "<ERROR_COUNT>"

abbrev pub common_flag : Bytes
common_flag = codes "<COMMAND>"

abbrev pub end_flag : Bytes
end_flag = codes "[END]"

abbrev pub is_found : Option ℕ → Bool
is_found none = false
is_found (some i) = true

unfoldable pub is_valid_cmd_line_buf : Bytes → Bool
is_valid_cmd_line_buf l = not (
    not (is_found (find hc_flag l))
    && not (is_found (find work_flag l))
    && not (is_found (find other_flag l))
    && not (is_found (find common_flag l)))

unfoldable pub is_log_end : Bytes → Bool
is_log_end l = is_found (find end_flag l)

-- GetAoCmdFromLine
unfoldable pub get_ao_cmd_from_line : Bytes → AoCommand
get_ao_cmd_from_line l = elim (find hc_flag l) [
  | some i ↦ record { type = hc_counter; cmd_content = drop (i + length hc_flag) l }
  | none ↦ elim (find work_flag l) [
    | some i ↦ record { type = work_counter; cmd_content = drop (i + length work_flag) l }
    | none ↦ elim (find other_flag l) [
      | some i ↦ record { type = other_counter; cmd_content = drop (i + length other_flag) l }
      | none ↦ elim (find common_flag l) [
        | some i ↦ record { type = common; cmd_content = drop (i + length common_flag) l }
        | none ↦ no_command
      ]
    ]
  ]
]

pub record AoCommandContainer : Type 0 where
  pub hc_cnt_cmd : AoCommand
  pub work_cnt_cmd : AoCommand
  pub other_cnt_cmd : AoCommand
  pub common_cmd_vector : List AoCommand

abbrev pub empty_container : AoCommandContainer
empty_container = record {
  hc_cnt_cmd = no_command;
  work_cnt_cmd = no_command;
  other_cnt_cmd = no_command;
  common_cmd_vector = [];
}

-- isEmpty of the container
unfoldable pub container_is_empty : AoCommandContainer → Bool
container_is_empty c =
    is_unknown c.hc_cnt_cmd.type
    && is_unknown c.work_cnt_cmd.type
    && is_unknown c.other_cnt_cmd.type
    && is_empty c.common_cmd_vector

-- The switch of WatchLog on the type of a command.
unfoldable pub add_typed : AoCmdType → AoCommand → AoCommandContainer → AoCommandContainer
add_typed hc_counter a c = record c { hc_cnt_cmd = a }
add_typed work_counter a c = record c { work_cnt_cmd = a }
add_typed other_counter a c = record c { other_cnt_cmd = a }
add_typed _ a c = record c { common_cmd_vector = c.common_cmd_vector ++ a ∷ [] }

-- The loop of WatchLog over the lines it can read: the container, and whether it came to the end
-- of the log.
unfoldable pub read_batch : List Bytes → AoCommandContainer → AoCommandContainer × Bool
read_batch [] c = (c, false)
read_batch (l ∷ ls) c =
    let a = get_ao_cmd_from_line l in
    let skipped = read_batch ls c in
    let added = read_batch ls (add_typed a.type a c) in
    if is_valid_cmd_line_buf l then added else if is_log_end l then (c, true) else skipped

abbrev pub line_of : AoCommand → List Bytes
line_of a = if is_unknown a.type then [] else a.cmd_content ∷ []

unfoldable pub contents : List AoCommand → List Bytes
contents [] = []
contents (a ∷ cs) = a.cmd_content ∷ contents cs

-- The lines of the file of MakeTmpAoFile.
unfoldable pub make_tmp_ao_file : AoCommandContainer → List Bytes
make_tmp_ao_file c =
    line_of c.hc_cnt_cmd
    ++ (line_of c.work_cnt_cmd ++ (line_of c.other_cnt_cmd ++ contents c.common_cmd_vector))

-- ReadLastLineOfFile, for a file that is not empty
unfoldable pub last_line : Bytes → File → Bytes
last_line l [] = l
last_line l (m ∷ ls) = last_line m ls

-- Exists, is not empty, and does not end with the end flag.
unfoldable pub is_current : Option File → Bool
is_current none = false
is_current (some []) = false
is_current (some (l ∷ ls)) = not (is_log_end (last_line l ls))

-- One round of GetCurrentLogFile, with the times of change: `none` is another round.
unfoldable pub get_current_log_file : ℕ → ℕ → Option File → Option File → Option Which
get_current_log_file t1 t2 first second =
    if is_current first && is_current second
    then (if ltb t2 t1 then some file_1 else some file_2)
    else if is_current first
    then some file_1
    else if is_current second
    then some file_2
    else none
