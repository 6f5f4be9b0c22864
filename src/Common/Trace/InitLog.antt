-- ===== src/Common/Trace/InitLog.antt =====
-- What the logs get after InitLog.
use others.Base.{
  ℕ, ◌≡◌, inl, refl, ap, ◌∙◌, Bool, true, ◌&&◌, if◌then◌else◌, List, [], ◌∷◌, some, Bytes, bytes_eq,
}
use others.Common.Log.{RtwLog, log_all}
use others.Common.Trace.{
  Level, command, error, warning, info, debug, trace, data_, RtwTrace, lookup, trace_messages,
  check_with_mask, init_log, init_list, new_logging,
}
use others.Common.Trace.Lines.{after, goes_to, lines_for, trace_messages-lookup}
use others.Common.Trace.Ready.{
  IsListed, here, there, set_up, settings, state, init_traces-AllAdded, goes_to-if, first,
}

-- The file of a level's trace.
abbrev pub file_of : Bytes → Bytes → Level → Bytes
file_of command_log process_log command = command_log
file_of command_log process_log _ = process_log

-- The messages of the levels that the mask lets through, for the levels that log to a file.
unfoldable pub let_through :
    (Level → Bool) → (Level → Bytes) → Bytes → List (Level × Bytes) → List Bytes
let_through on file name [] = []
let_through on file name ((l, m) ∷ ms) =
    let rest = let_through on file name ms in
    if on l && bytes_eq name (file l) then m ∷ rest else rest

lines_for-let_through :
    (on : Level → Bool) (file : Level → Bytes) (f : Level → RtwTrace) (name : Bytes)
    (ms : List (Level × Bytes))
    → ((l : Level) → goes_to name (f l) ≡ (on l && bytes_eq name (file l)))
    → lines_for name f ms ≡ let_through on file name ms
unfolding lines_for let_through
lines_for-let_through on file f name [] h = refl
lines_for-let_through on file f name ((l, m) ∷ ms) h =
    rw (h l, lines_for-let_through on file f name ms h) refl

init_list-IsListed : (c p : Bytes) (l : Level) → IsListed l (file_of c p l) (init_list c p)
init_list-IsListed c p command = here
init_list-IsListed c p error = there here
init_list-IsListed c p warning = there (there here)
init_list-IsListed c p debug = there (there (there here))
init_list-IsListed c p info = there (there (there (there here)))
init_list-IsListed c p trace = there (there (there (there (there here))))
init_list-IsListed c p data_ = there (there (there (there (there (there here)))))

settings-goes_to :
    (undefined : ℕ) (opened : Bytes → ℕ → RtwLog) (mask : ℕ) (c p name : Bytes) (k : Level)
    → goes_to name (settings undefined opened mask (init_list c p) (first undefined) k)
      ≡ (check_with_mask undefined mask k && bytes_eq name (file_of c p k))
unfolding settings set_up new_logging
settings-goes_to u o mask c p name command = goes_to-if (check_with_mask u mask command) name c
settings-goes_to u o mask c p name error = goes_to-if (check_with_mask u mask error) name p
settings-goes_to u o mask c p name warning = goes_to-if (check_with_mask u mask warning) name p
settings-goes_to u o mask c p name info = goes_to-if (check_with_mask u mask info) name p
settings-goes_to u o mask c p name debug = goes_to-if (check_with_mask u mask debug) name p
settings-goes_to u o mask c p name trace = goes_to-if (check_with_mask u mask trace) name p
settings-goes_to u o mask c p name data_ = goes_to-if (check_with_mask u mask data_) name p

-- After InitLog, whatever the two names, the mask and the messages: the file of a level that the
-- mask lets through holds, behind what it had when it was opened, just the messages of the levels
-- that the mask lets through and that log to it, in their order.
pub init_log-lookup :
    (undefined : ℕ) (opened : Bytes → ℕ → RtwLog) (size mask : ℕ) (c p : Bytes) (l : Level)
    (ms : List (Level × Bytes))
    → check_with_mask undefined mask l ≡ true
    → let s = init_log undefined opened size mask c p (new_logging undefined) in
      lookup (file_of c p l) (trace_messages ms s).log_map
      ≡ some (
          log_all
            (let_through (check_with_mask undefined mask) (file_of c p) (file_of c p l) ms)
            (opened (file_of c p l) size))
unfolding init_log new_logging lookup
init_log-lookup undefined opened size mask c p l ms h =
    let f0 = first undefined in
    let name = file_of c p l in
    let f1 = settings undefined opened mask (init_list c p) f0 in
    let on = check_with_mask undefined mask in
    let (logs, e, (all, kept)) =
      init_traces-AllAdded undefined opened size mask (init_list c p) f0 [] (λ n. inl refl) in
    ap (λ s. lookup name (trace_messages ms s).log_map) e
    ∙ trace_messages-lookup name ms (state undefined opened f1 size mask logs)
    ∙ ap (after (lines_for name f1 ms)) (all l name (init_list-IsListed c p l) h)
    ∙ ap (λ x. some (log_all x (opened name size)))
        (lines_for-let_through on (file_of c p) f1 name ms
          (settings-goes_to undefined opened mask c p name))
