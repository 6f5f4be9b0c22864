-- ===== src/Monitor/Sender/Buffer.antt =====
-- The buffer of SaveAoIntoLog is never overrun, and holds the lines of the file of commands.
use others.Base.{
  ℕ, ◌+◌, ◌<◌, ◌≡◌, arith, refl, sym, ap, ◌∙◌, List, [], ◌∷◌, ◌++◌, length, length-append,
  append_assoc, append-nil, Bytes, Bool-cases, inl, inr,
}
use others.Monitor.LogWatch.{
  AoCommand, AoCommandContainer, is_unknown, line_of, contents, make_tmp_ao_file,
}
use others.Monitor.Sender.{save_content, save_counter, save_common, save_ao_into_log}

-- The lines one after the other.
abbrev save_lines : ℕ → Bytes → List Bytes → Bytes
save_lines size buf [] = buf
save_lines size buf (l ∷ ls) = save_lines size (save_content size buf l) ls

save_lines-append :
    (size : ℕ) (buf : Bytes) (ls ms : List Bytes)
    → save_lines size buf (ls ++ ms) ≡ save_lines size (save_lines size buf ls) ms
save_lines-append size buf [] ms = refl
save_lines-append size buf (l ∷ ls) ms = save_lines-append size (save_content size buf l) ls ms

save_counter-lines :
    (size : ℕ) (buf : Bytes) (a : AoCommand)
    → save_counter size buf a ≡ save_lines size buf (line_of a)
unfolding save_counter
save_counter-lines size buf a = elim (Bool-cases (is_unknown a.type)) [
  | inl gone ↦ rw gone refl
  | inr there ↦ rw there refl
]

save_common-lines :
    (size : ℕ) (buf : Bytes) (cs : List AoCommand)
    → save_common size buf cs ≡ save_lines size buf (contents cs)
unfolding save_common contents
save_common-lines size buf [] = refl
save_common-lines size buf (a ∷ cs) =
    save_common-lines size (save_content size buf a.cmd_content) cs

-- The log takes the lines of the file of commands, in their order.
save_ao_into_log-lines :
    (size : ℕ) (c : AoCommandContainer)
    → save_ao_into_log size c ≡ save_lines size [] (make_tmp_ao_file c)
unfolding save_ao_into_log make_tmp_ao_file
save_ao_into_log-lines size c =
    let one = line_of c.hc_cnt_cmd in
    let two = line_of c.work_cnt_cmd in
    let three = line_of c.other_cnt_cmd in
    let rest = contents c.common_cmd_vector in
    rw
      (
        save_common-lines,
        save_counter-lines,
        save_counter-lines,
        save_counter-lines,
        save_lines-append size [] one,
        save_lines-append size (save_lines size [] one) two,
        save_lines-append size (save_lines size (save_lines size [] one) two) three rest,
      )
      refl

save_content-lt :
    (size : ℕ) (buf l : Bytes) → length buf < size → length (save_content size buf l) < size
unfolding save_content
save_content-lt size buf l h =
    let n = length-append buf (l ++ b'\n' ∷ []) in
    let m = length-append l (b'\n' ∷ []) in ground arith

save_lines-lt :
    (size : ℕ) (buf : Bytes) (ls : List Bytes)
    → length buf < size
    → length (save_lines size buf ls) < size
save_lines-lt size buf [] h = h
save_lines-lt size buf (l ∷ ls) h =
    save_lines-lt size (save_content size buf l) ls (save_content-lt size buf l h)

-- Whatever the commands: what SaveAoIntoLog collects is shorter than the size it compares with, so
-- that it and its final zero byte stay within the buffer, which is a byte larger.
pub save_ao_into_log-lt :
    (size : ℕ) (c : AoCommandContainer) → 0 < size → length (save_ao_into_log size c) < size
save_ao_into_log-lt size c h =
    rw (save_ao_into_log-lines size c) (save_lines-lt size [] (make_tmp_ao_file c) h)

-- The text of a file of these lines.
abbrev pub file_text : List Bytes → Bytes
file_text [] = []
file_text (l ∷ ls) = l ++ (b'\n' ∷ file_text ls)

save_content_fits :
    (size : ℕ) (buf l : Bytes)
    → length buf + length l + 1 < size
    → save_content size buf l ≡ buf ++ (l ++ b'\n' ∷ [])
unfolding save_content
save_content_fits size buf l h = ground arith

save_lines-text :
    (size : ℕ) (buf : Bytes) (ls : List Bytes)
    → length buf + length (file_text ls) < size
    → save_lines size buf ls ≡ buf ++ file_text ls
save_lines-text size buf [] h = sym (append-nil buf)
save_lines-text size buf (l ∷ ls) h =
    let rest = file_text ls in
    let all = length-append l (b'\n' ∷ rest) in
    let line = length-append l (b'\n' ∷ []) in
    let grown = length-append buf (l ++ b'\n' ∷ []) in
    rw (save_content_fits size buf l (omega arith)) (
      save_lines-text size (buf ++ (l ++ b'\n' ∷ [])) ls (omega arith)
      ∙ (append_assoc buf (l ++ b'\n' ∷ []) rest
          ∙ ap (λ t. buf ++ t) (append_assoc l (b'\n' ∷ []) rest)))

-- Where the file of commands is shorter than the size, the log is given just its text.
pub save_ao_into_log-text :
    (size : ℕ) (c : AoCommandContainer)
    → length (file_text (make_tmp_ao_file c)) < size
    → save_ao_into_log size c ≡ file_text (make_tmp_ao_file c)
save_ao_into_log-text size c h =
    save_ao_into_log-lines size c ∙ save_lines-text size [] (make_tmp_ao_file c) (omega arith)
