-- ===== src/Common/Tests.antt =====
-- The theorems on the configuration files and on the log, at concrete inputs.
use others.Base.{
  ℕ, ◌≡◌, refl, arith, true, List, [], ◌∷◌, ◌++◌, none, some, Bytes, bytes_eq, codes, ◌≢◌,
  if◌then◌else◌,
}
use others.Common.Conf.{Ini, analyze, map_key, read, value_of}
use others.Common.Conf.Values.{spaces, value_of-hash_dropped}
use others.Common.Conf.Lines.{item, read-item}
use others.Common.Log.{last_part, has_return, RtwLog, append_at, log_all, new_log, reopen, size}
use others.Common.Log.Rotation.{AllMessages, IsKept, log_all-keeps, log_all-reopens}
use others.Common.Trace.{
  Level, command, error, info, debug, mask_of, lookup, trace_messages, check_with_mask, init_log,
  new_logging,
}
use others.Common.Trace.InitLog.{file_of, let_through, init_log-lookup}

abbrev section_a : Ini
section_a = record { sect = codes "A"; entries = [] }

abbrev Differ : ℕ → ℕ → Type 0
Differ a b = a ≢ b

read-item_example :
    let t = analyze section_a (item (codes "a") 1 (codes "1")) in
    read t.entries (codes "A") (codes "a") ≡ (
      if bytes_eq (map_key (codes "A") (codes "a")) (map_key (codes "A") (codes "a"))
      then codes "1"
      else read [] (codes "A") (codes "a"))
read-item_example =
    read-item section_a 97 [] 1 49 [] refl (λ e. omega arith, λ e. omega arith, tt)
      (λ e. omega arith, λ e. omega arith, λ e. omega arith, tt)
      (λ e. omega arith, λ e. omega arith, tt)
      (λ e. omega arith, λ e. omega arith, λ e. omega arith, tt) (omega arith) (omega arith)
      (codes "A") (codes "a")

value_of-hash_dropped_example : value_of (spaces 3 ++ (codes "on" ++ codes " #x")) ≡ none
value_of-hash_dropped_example =
    value_of-hash_dropped 3 111 (codes "n") (codes "x")
      (λ e. omega arith, λ e. omega arith, (λ e. omega arith, λ e. omega arith, tt)) (omega arith)
      (λ e. omega arith, tt) (omega arith)

abbrev two_messages : List Bytes
two_messages = codes "first" ∷ codes "second" ∷ []

log_all-keeps_example : IsKept two_messages (log_all two_messages (new_log 3))
log_all-keeps_example = log_all-keeps 3 two_messages

are_messages : AllMessages two_messages
unfolding bytes_eq last_part has_return
are_messages = (refl, (refl, refl))

log_all-reopens_example :
    let s = log_all two_messages (new_log 3) in
    reopen 7 5 s ≡ some (s.log_name, append_at (some (size s.current)))
log_all-reopens_example = log_all-reopens 3 7 5 (codes "first") (codes "second" ∷ []) are_messages

abbrev just_opened : Bytes → ℕ → RtwLog
just_opened name size = new_log size

abbrev traced : List (Level × Bytes)
traced = (error, codes "e") ∷ (command, codes "c") ∷ (debug, codes "d") ∷ (info, codes "i") ∷ []

let_through-traced :
    let_through (check_with_mask 0 2) (file_of (codes "cmd") (codes "log")) (codes "log") traced
    ≡ codes "e" ∷ codes "i" ∷ []
unfolding let_through bytes_eq check_with_mask mask_of
let_through-traced = refl

info_on : check_with_mask 0 2 info ≡ true
unfolding check_with_mask mask_of
info_on = refl

init_log-lookup_example :
    let s = init_log 0 just_opened 100 2 (codes "cmd") (codes "log") (new_logging 0) in
    lookup (codes "log") (trace_messages traced s).log_map
    ≡ some (
        log_all
          (let_through
            (check_with_mask 0 2)
            (file_of (codes "cmd") (codes "log"))
            (codes "log")
            traced)
          (new_log 100))
init_log-lookup_example =
    init_log-lookup 0 just_opened 100 2 (codes "cmd") (codes "log") info traced info_on
