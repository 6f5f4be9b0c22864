-- ===== src/Reflect/Tests.antt =====
-- The theorems on the reflector, at concrete inputs.
use others.Base.{
  ◌≡◌, ◌⊎◌, refl, Bool, true, false, List, [], ◌∷◌, ◌++◌, none, some, Bytes, codes, inl, bytes_eq,
  starts_with, find,
}
use others.Base.Int.{pos}
use others.Common.Conf
use others.Reflect.{merge_csv_file, merge_file, merge_loop, is_file, polled, is_polled, rfind}
use others.Reflect.Files.{CommandEnd, contents_of, write_file, unlink_file, move_file, move_all}
use others.Reflect.Cycle.{
  Dirs, WorkReflector, app_start, init_error, oc_refl_error, poll_csv_error, Time, Env, Outcome,
  again, user_stopped, broken, file_op_buffer_size, occur_time, make_merge_file_name, arrive,
  entries, poll_csv_file, source_of, is_created, reflector_merge, move_into_backup,
  delete_merged_file, after_backup, after_merge, after_poll, start_round, after_signal, round,
  main_loop,
}
use others.Reflect.Startup.{Start, exited, initerr, initialize, run_initialized, main}
use others.Reflect.Cycle.Safety.{Holds, main_loop-Holds}
use others.Reflect.Cycle.Exits.{IsClean, round_ends, round-tidies}
use others.Reflect.Cycle.Success.{IsReflected, round-reflects}

abbrev well : CommandEnd
well = record { result = pos 0; if_exited = true; exit_status = 0 }

abbrev badly : CommandEnd
badly = record { result = pos 256; if_exited = true; exit_status = 1 }

abbrev noon : Time
noon = record {
  year = 2009;
  month = 1;
  day = 4;
  hour = 12;
  minute = 0;
  second = 0;
  millisecond = 7;
}

abbrev script_env : CommandEnd → Bool → Env
script_env script stop = record {
  arrivals = [];
  stop_signal = stop;
  opens = true;
  others = codes "tmp" ∷ [];
  mode = λ n. some 32768;
  time = noon;
  copies = λ n. record { opens_source = true; opens_destination = true; rounds = [] };
  script = script;
  moves = λ n. well;
  unlinks = true;
}

abbrev file_a : Bytes
file_a = codes "realwork_a.csv"

abbrev dat_name : Bytes
dat_name = codes "realwork_20090104120000007.dat"

abbrev dirs_before : Dirs
dirs_before = record {
  input = (file_a, codes "12") ∷ (codes "x", codes "3") ∷ [];
  output = [];
  csv_backup = [];
  dat_backup = [];
}

abbrev before : WorkReflector
before = record {
  user_stop = false;
  csv_input_files = [];
  merge_output_file = [];
  dirs = dirs_before;
  notices = app_start ∷ [];
}

abbrev after : WorkReflector
after = record {
  user_stop = false;
  csv_input_files = file_a ∷ [];
  merge_output_file = dat_name;
  dirs = record {
    input = (codes "x", codes "3") ∷ [];
    output = [];
    csv_backup = (file_a, codes "12") ∷ [];
    dat_backup = (dat_name, codes "12") ∷ [];
  };
  notices = app_start ∷ [];
}

abbrev after_error : WorkReflector
after_error = record {
  user_stop = false;
  csv_input_files = file_a ∷ [];
  merge_output_file = dat_name;
  dirs = dirs_before;
  notices = app_start ∷ oc_refl_error ∷ [];
}

abbrev same_order : List Bytes → List Bytes
same_order ns = ns

goes_on : round same_order (script_env well false) before ≡ some (again, after)
unfolding round after_signal start_round arrive after_poll poll_csv_file entries is_file polled
    is_polled rfind starts_with reflector_merge make_merge_file_name occur_time merge_csv_file
    merge_file merge_loop source_of contents_of is_created write_file after_merge move_into_backup
    move_all move_file bytes_eq unlink_file after_backup file_op_buffer_size
goes_on = refl

breaks : round same_order (script_env badly false) before ≡ some (broken, after_error)
unfolding round after_signal start_round arrive after_poll poll_csv_file entries is_file polled
    is_polled rfind starts_with reflector_merge make_merge_file_name occur_time merge_csv_file
    merge_file merge_loop source_of contents_of is_created write_file after_merge bytes_eq
    unlink_file file_op_buffer_size delete_merged_file
breaks = refl

-- A round that ends well, and the signal in the next one.
stops :
    main_loop same_order (script_env well false ∷ script_env well true ∷ []) before
    ≡ some (user_stopped, record after { user_stop = true })
unfolding main_loop round after_signal start_round arrive after_poll poll_csv_file entries is_file
    polled is_polled rfind starts_with reflector_merge make_merge_file_name occur_time
    merge_csv_file merge_file merge_loop source_of contents_of is_created write_file after_merge
    move_into_backup move_all move_file bytes_eq unlink_file after_backup file_op_buffer_size
stops = refl

main_loop-Holds_example : Holds file_a (codes "12") (record after { user_stop = true })
unfolding contents_of bytes_eq
main_loop-Holds_example =
    main_loop-Holds same_order (script_env well false ∷ script_env well true ∷ []) file_a
      (codes "12") before (user_stopped, record after { user_stop = true }) (refl, (refl, tt)) stops
      (inl refl)

round-reflects_example :
    IsReflected
      (script_env well false)
      (file_a ∷ [])
      (start_round (script_env well false) before)
      after
unfolding start_round arrive poll_csv_file entries is_file polled is_polled rfind starts_with
round-reflects_example =
    round-reflects same_order (script_env well false) before after file_a [] refl refl goes_on

round_ends_example :
    (out : Outcome × WorkReflector) × (round same_order (script_env badly false) before ≡ some out)
round_ends_example = round_ends same_order (script_env badly false) before

round-tidies_example :
    (after_error.notices ≡ before.notices ++ poll_csv_error ∷ []) ⊎ IsClean after_error
round-tidies_example =
    round-tidies same_order (script_env badly false) before after_error breaks refl

-- A start with the name for the alarms set, and no configuration for Initialize.
abbrev short_start : Start
short_start = record {
  argc = 2;
  conf = some (codes "[command]\nRTWORK_REFL_NOTIFY_OSI_ENTITY=x");
  conf_again = none;
  opens_logs = true;
  registers = true;
  sys = record { mode = λ n. none; access = λ n p. true };
  dirs = dirs_before;
}

ends_initerr : main same_order short_start [] ≡ some (exited initerr (app_start ∷ init_error ∷ []))
unfolding main run_initialized initialize Conf.open_conf Conf.split_lines Conf.analyze_all
    Conf.analyze Conf.section_of Conf.find_char Conf.rfind_char Conf.analyze_item Conf.key_of
    Conf.value_of Conf.cut_comment Conf.find_comment Conf.find_from Conf.find_first_not_blank
    Conf.find_last_not_blank Conf.assign Conf.lookup Conf.read find starts_with bytes_eq
ends_initerr = refl
