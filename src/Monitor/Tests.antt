-- ===== src/Monitor/Tests.antt =====
-- The theorems on the monitor, at concrete inputs.
use others.Base.{
  inr, ℕ, ◌≡◌, ◌≢◌, ◌↔◌, refl, arith, Bool, true, false, List, [], ◌∷◌, ◌++◌, none, some, Bytes,
  codes, take, find, starts_with, bytes_eq,
}
use others.Base.Int.{pos}
use others.Common.Conf
use others.Common.Log.{File, Which, file_1, file_2, file_named, log_all, new_log}
use others.Monitor.Process.{Status, Poll, Watched, dummy, watch}
use others.Monitor.Process.Alarms.{Tells, Changes, watch-Changes}
use others.Monitor.LogWatch.{
  AoCommandContainer, common, contents, empty_container, get_current_log_file, is_current,
  is_log_end, last_line, make_tmp_ao_file, no_command, read_batch,
}
use others.Monitor.LogWatch.Batch.{AllOpen, get_current_log_file-follows}
use others.Monitor.LogWatch.Watching.{Look, LogRound, ready, watch_loop, watch_log}
use others.Monitor.LogWatch.Watching.Telling.{told, all_added}
use others.Monitor.LogWatch.Watching.Marks.{is_clean}
use others.Monitor.LogWatch.Watching.Written.{
  Entry, hc_count, notice, line_of_entry, lines_of, AllMarkless, notices_of, last_count, end_line,
  read_batch-notices,
}
use others.Monitor.LogWatch.Watching.Notices.{AllFit, watch_loop-notices}
use others.Monitor.LogWatch.Watching.Skipping.{watch_log-skips}
use others.Monitor.Sender.{save_ao_into_log}
use others.Monitor.Sender.Buffer.{file_text, save_ao_into_log-text}
use others.Monitor.Threads
use others.Monitor.Threads.{
  Pthread, Watcher, process, recv_log, refl_log, watchers, is_running, start_all, start_monitor,
  check_running_status, stop_one, stop_monitor,
}
use others.Monitor.Threads.Stops.{running, AllStop, stop_monitor-all}
use others.Monitor.LogWatch.LastLine.{line_buff_size, read_last_line_of_file, is_chosen}
use others.Monitor.LogWatch.LastLine.Backwards.{text, is_plain, is_logged}
use others.Monitor.LogWatch.LastLine.Reading.{read_last_line_of_file-text, is_chosen-text}
use others.Monitor.Main.{
  Start, Turn, exited, norm, read_settings, is_accepted, initialize, sig_term, wait_loop,
  run_started, run_initialized, main,
}
use others.Monitor.Main.Laws.{EndsWell, Some, main_norm}

abbrev runs : ℕ → Poll
runs pid = record { signalled = false; pid = some pid }

abbrev stops : ℕ → Poll
stops pid = record { signalled = true; pid = some pid }

abbrev seen : ℕ → Watched
seen pid = record { is_stopping = false; proc_pid = pid }

watch-Changes_example :
    (ss : List Status) × Tells (runs 7 ∷ stops 7 ∷ runs 7 ∷ runs 8 ∷ []) (seen 0) ss
    × Changes dummy ss (watch (runs 7 ∷ stops 7 ∷ runs 7 ∷ runs 8 ∷ []) (seen 0) dummy).0
watch-Changes_example = watch-Changes (runs 7 ∷ stops 7 ∷ runs 7 ∷ runs 8 ∷ []) (seen 0) dummy

abbrev batch : List Bytes
batch = codes "x<HC_COUNT>a" ∷ codes "<COMMAND>b" ∷ codes "[END]" ∷ codes "<COMMAND>c" ∷ []

abbrev entries : List Entry
entries = hc_count (codes "x") (codes "a") ∷ notice [] (codes "b") ∷ []

entries-AllMarkless : AllMarkless entries
unfolding is_clean
entries-AllMarkless = ((refl, refl), ((refl, refl), refl))

read_batch-notices_example :
    let c =
      (read_batch (lines_of entries ++ end_line ∷ codes "<COMMAND>c" ∷ []) empty_container).0 in
    (c.common_cmd_vector ≡ notices_of entries) × (c.hc_cnt_cmd ≡ last_count no_command entries)
read_batch-notices_example =
    read_batch-notices entries (codes "<COMMAND>c" ∷ []) entries-AllMarkless

abbrev messages : List Bytes
messages = codes "one" ∷ codes "two" ∷ []

are_open : AllOpen messages
unfolding is_log_end find starts_with
are_open = (refl, (refl, refl))

get_current_log_file-follows_example :
    let s = log_all messages (new_log 3) in
    get_current_log_file 1 2 (file_named file_1 s) (file_named file_2 s) ≡ some s.log_name
get_current_log_file-follows_example =
    get_current_log_file-follows 3 1 2 (codes "one") (codes "two" ∷ []) are_open

-- Threads that live, and of which the first cannot be joined.
abbrev alive : Pthread
alive = record { create = 0; kill = 0; cancel = 0; join = 0; normal = true }

abbrev stuck : Watcher → Pthread
stuck process = record alive { join = 22 }
stuck recv_log = alive
stuck refl_log = record alive { kill = 3 }

abbrev all_alive : Watcher → Pthread
all_alive w = alive

stop_monitor-all_example :
    ((stop_monitor watchers stuck).0 ≡ running watchers stuck watchers)
    × (((stop_monitor watchers stuck).1 ≡ true) ↔ AllStop watchers stuck watchers)
stop_monitor-all_example = stop_monitor-all watchers stuck

abbrev conf_text : Bytes
conf_text =
    codes
      "[path]\nRTWORK_RECV_OC_NAME=a\nRTWORK_RECV_AO_ID=b\nRTWORK_REFL_OC_NAME=c\nRTWORK_REFL_AO_ID=d"

abbrev start : Start
start = record {
  argc = 2;
  registers = true;
  masks = true;
  conf = some conf_text;
  conf_again = some conf_text;
  opens_logs = true;
  sys = record { atoi = λ s. pos 1; accesses = λ s. true; appends = λ s. true };
  threads = all_alive;
  at_stop = all_alive;
}

-- A quiet turn, and one in which the signal comes.
abbrev turn : Bool → Turn
turn signalled = record {
  threads = all_alive;
  unmasks = true;
  signalled = signalled;
  masks = true;
  at_stop = all_alive;
}

ends_norm : main start (turn false ∷ turn true ∷ []) ≡ exited norm watchers
unfolding main run_initialized run_started initialize is_accepted read_settings start_monitor
    start_all Threads.start wait_loop check_running_status is_running stop_monitor stop_one
    Threads.stop sig_term Conf.open_conf Conf.split_lines Conf.analyze_all Conf.analyze
    Conf.section_of Conf.find_char Conf.rfind_char Conf.analyze_item Conf.key_of Conf.value_of
    Conf.cut_comment Conf.find_comment Conf.find_from Conf.find_first_not_blank
    Conf.find_last_not_blank Conf.assign Conf.lookup Conf.read find starts_with bytes_eq
ends_norm = refl

main_norm_example :
    (initialize start.sys start.conf_again ≢ none)
    × ((start_monitor start.threads).1 ≡ true)
    × Some (EndsWell (start_monitor start.threads).0 watchers) (turn false ∷ turn true ∷ [])
main_norm_example = main_norm start (turn false ∷ turn true ∷ []) watchers ends_norm

abbrev seven : Poll × Poll
seven = (runs 7, runs 8)

abbrev signalled_seven : Poll × Poll
signalled_seven = (stops 7, runs 8)

abbrev reads_all : List Bytes → LogRound
reads_all ls = record { added = ls; selected = ready; eof = true }

added_lines :
    (codes "<COMMAND>b" ∷ []) ++ all_added (reads_all batch ∷ [])
    ≡ lines_of (notice [] (codes "b") ∷ entries) ++ end_line ∷ codes "<COMMAND>c" ∷ []
unfolding lines_of line_of_entry
added_lines = refl

more-AllMarkless : AllMarkless (notice [] (codes "b") ∷ entries)
unfolding is_clean
more-AllMarkless = ((refl, refl), ((refl, refl), ((refl, refl), refl)))

entries-AllFit : AllFit (lines_of (notice [] (codes "b") ∷ entries))
unfolding lines_of line_of_entry is_plain
entries-AllFit = (refl, omega arith, (refl, omega arith, (refl, omega arith, refl)))

watch_loop-notices_example :
    told (watch_loop (reads_all batch ∷ []) (codes "<COMMAND>a" ∷ codes "<COMMAND>b" ∷ []) 1).0
    ≡ notices_of (notice [] (codes "b") ∷ entries)
watch_loop-notices_example =
    watch_loop-notices (codes "<COMMAND>a" ∷ []) (codes "<COMMAND>b" ∷ []) (reads_all batch) []
      (notice [] (codes "b") ∷ entries) (end_line ∷ codes "<COMMAND>c" ∷ []) ((refl, refl), tt)
      added_lines more-AllMarkless entries-AllFit (inr (codes "<COMMAND>c" ∷ [], refl))

-- The file that the monitor comes to after the end of the other one, with a line in it.
abbrev look : Look
look = record {
  time_1 = 1;
  time_2 = 2;
  first = some (codes "[END]" ∷ []);
  second = some (codes "<COMMAND>b" ∷ []);
}

abbrev two_logs : Which → File
two_logs file_1 = codes "[END]" ∷ []
two_logs file_2 = codes "<COMMAND>b" ∷ []

watch_log-skips_example :
    watch_log (look ∷ []) two_logs true (reads_all [] ∷ []) ≡ watch_loop (reads_all [] ∷ []) [] 0
unfolding get_current_log_file is_current last_line is_log_end find starts_with
watch_log-skips_example = watch_log-skips look [] two_logs (reads_all [] ∷ []) file_2 refl

abbrev one_command : AoCommandContainer
one_command = record empty_container {
  common_cmd_vector = record { type = common; cmd_content = codes "set" } ∷ [];
}

save_ao_into_log-text_example :
    save_ao_into_log 9 one_command ≡ file_text (make_tmp_ao_file one_command)
unfolding make_tmp_ao_file contents
save_ao_into_log-text_example = save_ao_into_log-text 9 one_command (omega arith)

logged_messages : is_logged messages ≡ true
unfolding is_logged is_plain
logged_messages = refl

read_last_line_of_file-text_example :
    read_last_line_of_file (some (text messages)) ≡ some (take line_buff_size (codes "two"))
unfolding last_line
read_last_line_of_file-text_example =
    read_last_line_of_file-text (codes "one") (codes "two" ∷ []) logged_messages

is_chosen-text_example : is_chosen (some (text messages)) ≡ is_current (some messages)
unfolding last_line
is_chosen-text_example =
    is_chosen-text (codes "one") (codes "two" ∷ []) logged_messages (omega arith)
