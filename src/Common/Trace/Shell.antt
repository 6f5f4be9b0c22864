-- ===== src/Common/Trace/Shell.antt =====
-- What the program for shell scripts logs.
use others.Base.{
  ℕ, ◌≡◌, inl, refl, ap, ◌∙◌, subst, Bool, true, false, ◌&&◌, if◌then◌else◌, [], ◌∷◌, Option, none,
  some, Bytes, bytes_eq, bytes_eq_refl, codes,
}
use others.Common.Log.{RtwLog, log, log_all}
use others.Common.Trace.{
  Level, error, warning, info, debug, trace, lookup, trace_messages, trace_message, init_traces,
  check_with_mask, new_logging, level_of, sh_init_list, sh_main, sh_line, sh_trace,
}
use others.Common.Trace.Lines.{after, goes_to, lines_for, trace_messages-lookup}
use others.Common.Trace.Ready.{
  IsListed, here, there, set_up, settings, state, init_traces-AllAdded, goes_to-if, first,
}

-- The trace of a level is set up with a name.
abbrev IsSetUp : ℕ → (Bytes → ℕ → RtwLog) → ℕ → Bytes → Level → Type 0
IsSetUp u o mask name l =
    IsListed l name (sh_init_list name)
    × (goes_to name (settings u o mask (sh_init_list name) (first u) l)
        ≡ (check_with_mask u mask l && bytes_eq name name))

abbrev AllSet : ℕ → (Bytes → ℕ → RtwLog) → ℕ → Bytes → Option Level → Type 0
AllSet u o mask name none = Unit
AllSet u o mask name (some l) = IsSetUp u o mask name l

AllSet-if :
    (u : ℕ) (o : Bytes → ℕ → RtwLog) (mask : ℕ) (name : Bytes) (b : Bool) (l : Level)
    (y : Option Level)
    → IsSetUp u o mask name l
    → AllSet u o mask name y
    → AllSet u o mask name (if b then some l else y)
AllSet-if u o mask name false l y p q = q
AllSet-if u o mask name true l y p q = p

-- Every level that a name stands for is set up.
level_of-AllSet :
    (u : ℕ) (o : Bytes → ℕ → RtwLog) (mask : ℕ) (name s : Bytes) → AllSet u o mask name (level_of s)
unfolding level_of settings set_up new_logging
level_of-AllSet u o mask name s =
    let on = check_with_mask u mask in
    let set = AllSet-if u o mask name in
    let is = bytes_eq s in
    set (is (codes "INFO")) info _ (here, goes_to-if (on info) name name)
      (set (is (codes "ERROR")) error _ (there here, goes_to-if (on error) name name)
        (set (is (codes "DEBUG")) debug _ (there (there here), goes_to-if (on debug) name name)
          (set (is (codes "TRACE")) trace _
            (there (there (there here)), goes_to-if (on trace) name name)
            (set (is (codes "WARNING")) warning _
              (there (there (there (there here))), goes_to-if (on warning) name name) tt))))

-- Given seven arguments, of which the third names a level that the mask lets through, the program
-- exits with 0, and the file has the one line of the message behind what it had.
pub sh_main-lookup :
    (undefined : ℕ) (opened : Bytes → ℕ → RtwLog) (atoi : Bytes → ℕ)
    (now size mask level name message pid shell : Bytes) (l : Level)
    → level_of level ≡ some l
    → check_with_mask undefined (atoi mask) l ≡ true
    → let args = size ∷ mask ∷ level ∷ name ∷ message ∷ pid ∷ shell ∷ [] in
      let r = sh_main undefined opened atoi now args (new_logging undefined) in
      (r.0 ≡ 0)
      × (lookup name r.1.log_map
          ≡ some (log (sh_line now level message pid shell) (opened name (atoi size))))
unfolding sh_main new_logging trace_messages lines_for log_all lookup
sh_main-lookup u o atoi now size mask level name message pid shell l e h =
    let m = atoi mask in
    let ls = sh_init_list name in
    let line = sh_line now level message pid shell in
    let f1 = settings u o m ls (first u) in
    let (listed, goes) = subst (AllSet u o m name) e (level_of-AllSet u o m name level) in
    let (logs, x, (all, kept)) =
      init_traces-AllAdded u o (atoi size) m ls (first u) [] (λ n. inl refl) in
    let on : goes_to name (f1 l) ≡ true = goes ∙ rw (h, bytes_eq_refl name) refl in
    let one : lines_for name f1 ((l, line) ∷ []) ≡ line ∷ [] = rw (lines_for, on) refl in
    (
      refl,
      ap
            (λ k.
              lookup name
                (sh_trace k line
                  (init_traces u o ls (state u o (first u) (atoi size) m []))).log_map)
            e
          ∙ ap (λ s. lookup name (trace_message l line s).log_map) x
          ∙ trace_messages-lookup name ((l, line) ∷ []) (state u o f1 (atoi size) m logs)
          ∙ ap (after (lines_for name f1 ((l, line) ∷ []))) (all l name listed h)
          ∙ ap (λ ms. after ms (some (o name (atoi size)))) one,
    )
