-- ===== src/Monitor/LogWatch/Watching/Written.antt =====
-- The lines of the command log as the macros of common/include/common_log.hxx write them, and what
-- is read of them.
use others.Base.{
  ◌≡◌, refl, ap, ◌∙◌, true, false, not, List, [], ◌∷◌, ◌++◌, none, Bytes, codes, find, starts_with,
}
use others.Common.Log.{File}
use others.Monitor.LogWatch.{
  AoCommand, hc_counter, work_counter, other_counter, common, is_valid_cmd_line_buf, is_log_end,
  get_ao_cmd_from_line, is_unknown, no_command, empty_container, read_batch,
}
use others.Monitor.LogWatch.Batch.{
  valid-has_type, before_end, commands, commons, last_hc, read_batch-tells,
}
use others.Monitor.LogWatch.Watching.Marks.{
  is_clean, flagged_hc, flagged_work, flagged_error, flagged_command, neither_valid,
}

-- What is logged: a counter or a notice for the operator, with what stands before it, or a line
-- that is none of these.
pub data Entry : Type 0 where
  hc_count work_count error_count notice : Bytes → Bytes → Entry
  neither : Bytes → Entry

unfoldable pub line_of_entry : Entry → Bytes
line_of_entry (hc_count stamp text) = stamp ++ (codes "<HC_COUNT>" ++ text)
line_of_entry (work_count stamp text) = stamp ++ (codes "<WORK_COUNT>" ++ text)
line_of_entry (error_count stamp text) = stamp ++ (codes "<ERROR_COUNT>" ++ text)
line_of_entry (notice stamp text) = stamp ++ (codes "<COMMAND>" ++ text)
line_of_entry (neither text) = text

unfoldable pub lines_of : List Entry → File
lines_of [] = []
lines_of (e ∷ es) = line_of_entry e ∷ lines_of es

abbrev pub IsMarkless : Entry → Type 0
IsMarkless (hc_count stamp text) = (is_clean stamp ≡ true) × (is_clean text ≡ true)
IsMarkless (work_count stamp text) = (is_clean stamp ≡ true) × (is_clean text ≡ true)
IsMarkless (error_count stamp text) = (is_clean stamp ≡ true) × (is_clean text ≡ true)
IsMarkless (notice stamp text) = (is_clean stamp ≡ true) × (is_clean text ≡ true)
IsMarkless (neither text) = (is_clean text ≡ true) × (find (codes "[END]") text ≡ none)

-- No `<` beside those of the marks, and no end flag in a line that is none of the commands.
abbrev pub AllMarkless : List Entry → Type 0
AllMarkless [] = true ≡ true
AllMarkless (e ∷ es) = IsMarkless e × AllMarkless es

-- The texts of the notices, and the text of the last health check counter.
unfoldable pub notices_of : List Entry → List AoCommand
notices_of [] = []
notices_of (notice stamp text ∷ es) = record { type = common; cmd_content = text } ∷ notices_of es
notices_of (e ∷ es) = notices_of es

unfoldable pub last_count : AoCommand → List Entry → AoCommand
last_count a [] = a
last_count a (hc_count stamp text ∷ es) =
    last_count (record { type = hc_counter; cmd_content = text }) es
last_count a (e ∷ es) = last_count a es

-- The commands that entries are.
unfoldable pub told_of : List Entry → List AoCommand
told_of [] = []
told_of (hc_count stamp text ∷ es) = record { type = hc_counter; cmd_content = text } ∷ told_of es
told_of (work_count stamp text ∷ es) =
    record { type = work_counter; cmd_content = text } ∷ told_of es
told_of (error_count stamp text ∷ es) =
    record { type = other_counter; cmd_content = text } ∷ told_of es
told_of (notice stamp text ∷ es) = record { type = common; cmd_content = text } ∷ told_of es
told_of (neither text ∷ es) = told_of es

command_line :
    (l : Bytes) (ls : List Bytes) (a : AoCommand) (as_told : List AoCommand)
    → get_ao_cmd_from_line l ≡ a
    → is_unknown a.type ≡ false
    → commands (before_end ls) ≡ as_told
    → commands (before_end (l ∷ ls)) ≡ a ∷ as_told
unfolding commands before_end
command_line l ls a as_told g k rest =
    let v : is_valid_cmd_line_buf l ≡ true =
      valid-has_type l ∙ ap (λ b. not (is_unknown b.type)) g ∙ ap not k in
    rw (v, commands) (rw (v, g, rest) refl)

neither_line :
    (l : Bytes) (ls : List Bytes) (as_told : List AoCommand)
    → is_valid_cmd_line_buf l ≡ false
    → find (codes "[END]") l ≡ none
    → commands (before_end ls) ≡ as_told
    → commands (before_end (l ∷ ls)) ≡ as_told
unfolding commands before_end is_log_end
neither_line l ls as_told v k rest = rw (v, k, commands) (rw v rest)

pub commands_told :
    (es : List Entry) (rest : List Bytes)
    → AllMarkless es
    → before_end rest ≡ []
    → commands (before_end (lines_of es ++ rest)) ≡ told_of es
unfolding lines_of line_of_entry told_of
commands_told [] rest h e = ap commands e ∙ unfold commands in refl
commands_told (hc_count stamp text ∷ es) rest ((h, k), t) e =
    command_line _ _ _ _ (flagged_hc stamp text h) refl (commands_told es rest t e)
commands_told (work_count stamp text ∷ es) rest ((h, k), t) e =
    command_line _ _ _ _ (flagged_work stamp text h k) refl (commands_told es rest t e)
commands_told (error_count stamp text ∷ es) rest ((h, k), t) e =
    command_line _ _ _ _ (flagged_error stamp text h k) refl (commands_told es rest t e)
commands_told (notice stamp text ∷ es) rest ((h, k), t) e =
    command_line _ _ _ _ (flagged_command stamp text h k) refl (commands_told es rest t e)
commands_told (neither text ∷ es) rest ((h, k), t) e =
    neither_line text _ _ (neither_valid text h) k (commands_told es rest t e)

pub commons_told : (es : List Entry) → commons (told_of es) ≡ notices_of es
unfolding commons told_of notices_of
commons_told [] = refl
commons_told (hc_count stamp text ∷ es) = commons_told es
commons_told (work_count stamp text ∷ es) = commons_told es
commons_told (error_count stamp text ∷ es) = commons_told es
commons_told (notice stamp text ∷ es) =
    ap (λ cs. record { type = common; cmd_content = text } ∷ cs) (commons_told es)
commons_told (neither text ∷ es) = commons_told es

last_hc_told : (es : List Entry) (a : AoCommand) → last_hc a (told_of es) ≡ last_count a es
unfolding last_hc told_of last_count
last_hc_told [] a = refl
last_hc_told (hc_count stamp text ∷ es) a = last_hc_told es _
last_hc_told (work_count stamp text ∷ es) a = last_hc_told es a
last_hc_told (error_count stamp text ∷ es) a = last_hc_told es a
last_hc_told (notice stamp text ∷ es) a = last_hc_told es a
last_hc_told (neither text ∷ es) a = last_hc_told es a

abbrev pub end_line : Bytes
end_line = codes "[END]"

pub end_line-before : (behind : List Bytes) → before_end (end_line ∷ behind) ≡ []
unfolding before_end is_valid_cmd_line_buf is_log_end find starts_with
end_line-before behind = refl

-- Of entries as they are logged, with no `<` beside those of the marks and no end flag among the
-- lines that are no commands, and then the end of the log and any lines, a batch tells the texts of
-- all notices in their order, and of the health check counter the last text.
pub read_batch-notices :
    (es : List Entry) (behind : List Bytes)
    → AllMarkless es
    → let c = (read_batch (lines_of es ++ end_line ∷ behind) empty_container).0 in
      (c.common_cmd_vector ≡ notices_of es) × (c.hc_cnt_cmd ≡ last_count no_command es)
read_batch-notices es behind h =
    let ls = lines_of es ++ end_line ∷ behind in
    let (commons_are, hc_is) = read_batch-tells ls in
    let e = commands_told es (end_line ∷ behind) h (end_line-before behind) in
    (
      commons_are ∙ ap commons e ∙ commons_told es,
      hc_is ∙ ap (last_hc no_command) e ∙ last_hc_told es no_command,
    )
