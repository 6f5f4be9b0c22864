-- ===== src/Reflect/Cycle.antt =====
-- One round of the main loop of reflect/Main.cpp: the stop signal, PollCsvFile, MergeCsvFile,
-- CallOcReflection, MoveIntoBackup and DeleteMergedFile of reflect/WorkReflector.cpp, on the four
-- directories. What the system does in a round is an argument.
pub mod Safety
pub mod Exits
pub mod Success
use others.Base.{
  ℕ, ◌+◌, ◌*◌, ◌/◌, ◌%◌, ◌^◌, Bool, true, false, not, ◌||◌, if◌then◌else◌, List, [], ◌∷◌, ◌++◌, map,
  length, replicate, Option, none, some, Bytes, codes, is_empty,
}
use others.Reflect.{Round, good, merge_csv_file, is_file, polled}
use others.Reflect.Files.{
  Directory, contents_of, write_file, unlink_file, CommandEnd, is_success, Moved, move_file,
  move_all,
}

-- CSV_FILE_NAME_PREFIX, CSV_FILE_NAME_EXT, MERGE_FILE_NAME_EXT
abbrev pub csv_file_name_prefix : Bytes
csv_file_name_prefix = codes "realwork_"

abbrev pub csv_file_name_ext : Bytes
csv_file_name_ext = codes ".csv"

abbrev pub merge_file_name_ext : Bytes
merge_file_name_ext = codes ".dat"

unfoldable pub file_op_buffer_size : ℕ
file_op_buffer_size = 1024 * 1024

-- The directories m_csvInputDir, m_datOutputDir, m_csvBackupDir and m_datBackupDir.
pub record Dirs : Type 0 where
  pub input : Directory
  pub output : Directory
  pub csv_backup : Directory
  pub dat_backup : Directory

-- What SEND_NOTIFY_AO and SEND_NOTIFY_WARNING_AO tell.
pub data Notice : Type 0 where
  app_start init_error poll_csv_error merge_csv_error oc_refl_error bk_file_error app_exit : Notice

-- WorkReflector: the fields that change, with the directories and what has been told.
pub record WorkReflector : Type 0 where
  pub user_stop : Bool
  pub csv_input_files : List Bytes
  pub merge_output_file : Bytes
  pub dirs : Dirs
  pub notices : List Notice

-- localtime_r and gettimeofday: the fields of the time of day, with the milliseconds.
pub record Time : Type 0 where
  pub year : ℕ
  pub month : ℕ
  pub day : ℕ
  pub hour : ℕ
  pub minute : ℕ
  pub second : ℕ
  pub millisecond : ℕ

-- %02d, %03d and %04d, for numbers of no more digits
abbrev pub digit : ℕ → ℕ
digit n = 48 + n % 10

abbrev pub two_digits : ℕ → Bytes
two_digits n = digit (n / 10) ∷ digit n ∷ []

abbrev pub three_digits : ℕ → Bytes
three_digits n = digit (n / 100) ∷ two_digits n

abbrev pub four_digits : ℕ → Bytes
four_digits n = digit (n / 1000) ∷ three_digits n

unfoldable pub occur_time : Time → Bytes
occur_time t =
    four_digits t.year
    ++ (two_digits t.month
        ++ (two_digits t.day
            ++ (two_digits t.hour
                ++ (two_digits t.minute ++ (two_digits t.second ++ three_digits t.millisecond)))))

-- MakeMergeFileName, without the directory
unfoldable pub make_merge_file_name : Time → Bytes
make_merge_file_name t = csv_file_name_prefix ++ (occur_time t ++ merge_file_name_ext)

-- How the copy of one file goes: whether both files open, and the rounds up to the first that goes
-- wrong; those after them go well.
pub record Copy : Type 0 where
  pub opens_source : Bool
  pub opens_destination : Bool
  pub rounds : List Round

-- What the rest of the system does in one round.
pub record Env : Type 0 where
  pub arrivals : Directory  -- files of the receiving process, before the directory is read
  pub stop_signal : Bool  -- SIGTERM is pending
  pub opens : Bool  -- opendir()
  pub others : List Bytes  -- what else the input directory names
  pub mode : Bytes → Option ℕ  -- stat()
  pub time : Time
  pub copies : Bytes → Copy
  pub script : CommandEnd
  pub moves : Bytes → CommandEnd
  pub unlinks : Bool

unfoldable pub arrive : Directory → Directory → Directory
arrive [] d = d
arrive ((k, v) ∷ fs) d = write_file k v (arrive fs d)

abbrev pub entry_of : (Bytes → Option ℕ) → Bytes → Bool × Bytes
entry_of mode n = (is_file (mode n), n)

abbrev name_of : Bytes × Bytes → Bytes
name_of f = f.0

-- What readdir() gives, with the answers of IsFile.
unfoldable pub entries : Env → Directory → List (Bool × Bytes)
entries e input = map (entry_of e.mode) (e.others ++ map name_of input)

-- PollCsvFile; `none` is REFL_RT_ERROR. `sort` is std::sort.
unfoldable pub poll_csv_file : (List Bytes → List Bytes) → Env → Directory → Option (List Bytes)
poll_csv_file sort e input =
    if e.opens
    then some (sort (polled csv_file_name_prefix csv_file_name_ext (entries e input)))
    else none

abbrev bytes_in : Option Bytes → ℕ
bytes_in none = 0
bytes_in (some s) = length s

-- How the copy of one of the polled files goes.
unfoldable pub source_of : Env → Directory → Bytes → Option Bytes × Bool × List Round
source_of e input n =
    let c = e.copies n in
    let source = if c.opens_source then contents_of n input else none in
    (source, c.opens_destination, c.rounds ++ replicate (bytes_in source) good)

-- Whether the destination is opened at all, and so made.
unfoldable pub is_created : List (Option Bytes × Bool × List Round) → Bool
is_created [] = false
is_created ((none, opens, rounds) ∷ fs) = false
is_created ((some source, opens, rounds) ∷ fs) = opens

abbrev pub or_empty : Option Bytes → Bytes
or_empty none = []
or_empty (some s) = s

-- The file that MergeCsvFile writes, after a result of merge_csv_file.
abbrev pub merged : Env → WorkReflector → Bytes → Bool × Bytes → Bool × WorkReflector
merged e r name (ok, out) = (
  ok,
  record r {
    merge_output_file = name;
    dirs = record r.dirs {
      output =
          if is_created (map (source_of e r.dirs.input) r.csv_input_files)
          then write_file name out r.dirs.output
          else r.dirs.output;
    };
  },
)

-- WorkReflector::MergeCsvFile; the result says whether it is REFL_RT_SUCCESS.
unfoldable pub reflector_merge : Env → WorkReflector → Option (Bool × WorkReflector)
reflector_merge e r =
    let name = make_merge_file_name e.time in
    elim (merge_csv_file file_op_buffer_size (map (source_of e r.dirs.input) r.csv_input_files)
      (or_empty (contents_of name r.dirs.output))) [
        | none ↦ none
        | some res ↦ some (merged e r name res)
      ]

-- MoveIntoBackup
unfoldable pub move_into_backup : Env → WorkReflector → Bool × WorkReflector
move_into_backup e r =
    let m = move_all e.moves r.csv_input_files r.dirs.input r.dirs.csv_backup in
    let n = r.merge_output_file in
    let d = move_file (e.moves n) n r.dirs.output r.dirs.dat_backup in
    let files = record r.dirs { input = m.from; csv_backup = m.to } in
    if m.ok
    then (d.ok, record r { dirs = record files { output = d.from; dat_backup = d.to } })
    else (false, record r { dirs = files })

-- DeleteMergedFile
unfoldable pub delete_merged_file : Env → WorkReflector → WorkReflector
delete_merged_file e r =
    if e.unlinks
    then record r {
      dirs = record r.dirs { output = unlink_file r.merge_output_file r.dirs.output };
    }
    else r

abbrev pub notify : Notice → WorkReflector → WorkReflector
notify n r = record r { notices = r.notices ++ n ∷ [] }

-- How a round of the loop ends: it goes on, or leaves the loop with isBrkWithError or without.
pub data Outcome : Type 0 where
  again user_stopped broken : Outcome

-- The rest of a round after each of its steps.
unfoldable pub after_backup : Env → Bool × WorkReflector → Outcome × WorkReflector
after_backup e (true, r) = (again, r)
after_backup e (false, r) = (broken, delete_merged_file e (notify bk_file_error r))

unfoldable pub after_merge : Env → Bool × WorkReflector → Outcome × WorkReflector
after_merge e (false, r) = (broken, delete_merged_file e (notify merge_csv_error r))
after_merge e (true, r) =
    if is_success e.script
    then after_backup e (move_into_backup e r)
    else (broken, delete_merged_file e (notify oc_refl_error r))

unfoldable pub after_poll :
    Env → Option (List Bytes) → WorkReflector → Option (Outcome × WorkReflector)
after_poll e none r = some (broken, notify poll_csv_error (record r { csv_input_files = [] }))
after_poll e (some []) r = some (again, record r { csv_input_files = [] })
after_poll e (some (n ∷ ns)) r = elim (reflector_merge e (record r { csv_input_files = n ∷ ns })) [
  | none ↦ none
  | some m ↦ some (after_merge e m)
]

-- What is there when the round starts: new files, and the flag that the handler sets.
unfoldable pub start_round : Env → WorkReflector → WorkReflector
start_round e r = record r {
  user_stop = r.user_stop || e.stop_signal;
  dirs = record r.dirs { input = arrive e.arrivals r.dirs.input };
}

unfoldable pub after_signal :
    (List Bytes → List Bytes) → Env → Bool → WorkReflector → Option (Outcome × WorkReflector)
after_signal sort e true s = some (user_stopped, s)
after_signal sort e false s = after_poll e (poll_csv_file sort e s.dirs.input) s

-- One round of the loop of main.
unfoldable pub round :
    (List Bytes → List Bytes) → Env → WorkReflector → Option (Outcome × WorkReflector)
round sort e r = let s = start_round e r in after_signal sort e s.user_stop s

-- The loop of main, over the rounds for which the system is given: how it ends, or that it runs on.
unfoldable pub main_loop :
    (List Bytes → List Bytes) → List Env → WorkReflector → Option (Outcome × WorkReflector)
main_loop sort [] r = some (again, r)
main_loop sort (e ∷ es) r = elim (round sort e r) [
  | none ↦ none
  | some (again, s) ↦ main_loop sort es s
  | some (user_stopped, s) ↦ some (user_stopped, s)
  | some (broken, s) ↦ some (broken, s)
]
