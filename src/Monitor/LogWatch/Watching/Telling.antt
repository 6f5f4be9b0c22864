-- ===== src/Monitor/LogWatch/Watching/Telling.antt =====
-- What the watching thread tells: every command behind its position, once.
use others.Base.{
  ◌≡◌, refl, sym, ap, ◌∙◌, arith, Bool, true, false, if◌then◌else◌, List, [], ◌∷◌, ◌++◌, length,
  append_assoc, append-nil, is_empty, Bytes, Bool-cases, inl, inr,
}
use others.Common.Log.{File}
use others.Monitor.LogWatch.{
  AoCommand, AoCommandContainer, container_is_empty, empty_container, is_log_end,
  is_valid_cmd_line_buf, get_ao_cmd_from_line, add_typed, read_batch,
}
use others.Monitor.LogWatch.Batch.{before_end, commands, commons, read_batch-tells}
use others.Monitor.LogWatch.Watching.{
  LogRound, Selected, Returned, ready, after_select, next_position, sent, watch_loop, buffered,
  trimmed, pieces,
}
use others.Monitor.LogWatch.LastLine.{line_buff_size}
use others.Monitor.LogWatch.Watching.Skipping.{watch_loop-behind}

-- Whether the lines come to the end of the log.
has_end : List Bytes → Bool
has_end [] = false
has_end (l ∷ ls) =
    let rest = has_end ls in
    if is_valid_cmd_line_buf l then rest else if is_log_end l then true else rest

read_batch-has_end : (ls : List Bytes) (c : AoCommandContainer) → (read_batch ls c).1 ≡ has_end ls
unfolding read_batch has_end
read_batch-has_end [] c = refl
read_batch-has_end (l ∷ ls) c =
    let a = get_ao_cmd_from_line l in
    let skipped = read_batch-has_end ls c in
    let added = read_batch-has_end ls (add_typed a.type a c) in ground arith

before_end-append :
    (xs ys : List Bytes)
    → before_end (xs ++ ys) ≡ before_end xs ++ (if has_end xs then [] else before_end ys)
unfolding before_end has_end
before_end-append [] ys = refl
before_end-append (l ∷ xs) ys =
    let rest = before_end-append xs ys in
    elim (Bool-cases (is_valid_cmd_line_buf l)) [
      | inl v ↦ rw v (ap (λ t. l ∷ t) rest)
      | inr v ↦ elim (Bool-cases (is_log_end l)) [
        | inl e ↦ rw (v, e) refl
        | inr e ↦ rw (v, e) (ap (λ t. l ∷ t) rest)
      ]
    ]

commands-append : (xs ys : List Bytes) → commands (xs ++ ys) ≡ commands xs ++ commands ys
unfolding commands
commands-append [] ys = refl
commands-append (l ∷ xs) ys = elim (Bool-cases (is_valid_cmd_line_buf l)) [
  | inl v ↦ rw v (ap (λ t. get_ao_cmd_from_line l ∷ t) (commands-append xs ys))
  | inr v ↦ rw v (commands-append xs ys)
]

commons-append : (xs ys : List AoCommand) → commons (xs ++ ys) ≡ commons xs ++ commons ys
unfolding commons
commons-append [] ys = refl
commons-append (a ∷ xs) ys = let rest = commons-append xs ys in ground arith

-- The commands that are no counters, of some lines up to the end of the log.
abbrev pub commons_of : List Bytes → List AoCommand
commons_of ls = commons (commands (before_end ls))

commons_of-append :
    (xs ys : List Bytes)
    → commons_of (xs ++ ys) ≡ commons_of xs ++ (if has_end xs then [] else commons_of ys)
unfolding commands commons
commons_of-append xs ys =
    let rest = if has_end xs then [] else before_end ys in
    ap (λ ls. commons (commands ls)) (before_end-append xs ys)
    ∙ (ap commons (commands-append (before_end xs) rest)
        ∙ (commons-append (commands (before_end xs)) (commands rest)
            ∙ (elim (Bool-cases (has_end xs)) [ inl e ↦ rw e refl | inr e ↦ rw e refl ])))

-- The commands that are no counters, of all that is sent.
abbrev pub told : List AoCommandContainer → List AoCommand
told [] = []
told (c ∷ cs) = c.common_cmd_vector ++ told cs

told-append : (xs ys : List AoCommandContainer) → told (xs ++ ys) ≡ told xs ++ told ys
told-append [] ys = refl
told-append (c ∷ xs) ys =
    ap (λ t. c.common_cmd_vector ++ t) (told-append xs ys)
    ∙ sym (append_assoc c.common_cmd_vector (told xs) (told ys))

is_empty-nil : (cs : List AoCommand) → is_empty cs ≡ true → cs ≡ []
is_empty-nil [] h = refl
is_empty-nil (a ∷ cs) h = cc

told-sent : (c : AoCommandContainer) → told (sent c) ≡ c.common_cmd_vector
unfolding sent container_is_empty
told-sent c =
    let none_there = is_empty-nil c.common_cmd_vector in
    let same = append-nil c.common_cmd_vector in ground arith

told-batch : (ls : List Bytes) → told (sent (read_batch ls empty_container).0) ≡ commons_of ls
told-batch ls = told-sent (read_batch ls empty_container).0 ∙ (read_batch-tells ls).0

-- Every round finds the file readable, and reads it to its end.
abbrev pub AllReady : List LogRound → Type 0
AllReady [] = Unit {0}
AllReady (r ∷ rs) = ((r.selected ≡ ready) × (r.eof ≡ true)) × AllReady rs

abbrev pub all_added : List LogRound → List Bytes
all_added [] = []
all_added (r ∷ rs) = r.added ++ all_added rs

after_select_tells :
    (ls : List Bytes) (s : Selected) (eof : Bool) (rest : List AoCommandContainer × Returned)
    → s ≡ ready
    → eof ≡ true
    → told (after_select s (read_batch ls empty_container) eof rest).0
      ≡ commons_of ls ++ (if has_end ls then [] else told rest.0)
unfolding after_select
after_select_tells ls s eof rest e f =
    let batch = read_batch ls empty_container in
    let same = read_batch-has_end ls empty_container in
    rw (e, f, same)
      (elim (Bool-cases (has_end ls)) [
        | inl stop ↦ rw stop (told-batch ls ∙ sym (append-nil (commons_of ls)))
        | inr on ↦
            rw on (told-append (sent batch.0) rest.0 ∙ ap (λ t. t ++ told rest.0) (told-batch ls))
      ])

pub buffered-append : (xs ys : List Bytes) → buffered (xs ++ ys) ≡ buffered xs ++ buffered ys
unfolding buffered
buffered-append [] ys = refl
buffered-append (l ∷ xs) ys =
    ap (λ t. trimmed (pieces line_buff_size line_buff_size l) ++ t) (buffered-append xs ys)
    ∙ sym (
        append_assoc (trimmed (pieces line_buff_size line_buff_size l)) (buffered xs) (buffered ys))

-- From a position behind all lines of the file on.
from_end : (rs : List LogRound) (f : File) → watch_loop rs f (length f) ≡ watch_loop rs [] 0
from_end rs f =
    ap (λ g. watch_loop rs g (length f)) (sym (append-nil f))
    ∙ (ap (λ n. watch_loop rs (f ++ []) n) (omega arith) ∙ watch_loop-behind rs f [] 0)

watch_loop-step :
    (r : LogRound) (rs : List LogRound) (f : File)
    → (r.selected ≡ ready) × (r.eof ≡ true)
    → told (watch_loop rs [] 0).0 ≡ commons_of (buffered (all_added rs))
    → told (watch_loop (r ∷ rs) f 0).0 ≡ commons_of (buffered (f ++ all_added (r ∷ rs)))
unfolding watch_loop
watch_loop-step r rs f (e, eof) later =
    let ls = f ++ r.added in
    let rest = watch_loop rs ls (next_position r.selected 0 ls) in
    let same : rest ≡ watch_loop rs [] 0 = rw e (from_end rs ls) in
    after_select_tells (buffered ls) r.selected r.eof rest e eof
    ∙ (rw (same, later) (sym (commons_of-append (buffered ls) (buffered (all_added rs))))
        ∙ ap commons_of (sym (buffered-append ls (all_added rs)))
        ∙ ap (λ t. commons_of (buffered t)) (append_assoc f r.added (all_added rs)))

watch_loop_tells :
    (rs : List LogRound)
    → AllReady rs
    → told (watch_loop rs [] 0).0 ≡ commons_of (buffered (all_added rs))
unfolding watch_loop before_end commands commons buffered
watch_loop_tells [] t = refl
watch_loop_tells (r ∷ rs) (h, t) = watch_loop-step r rs [] h (watch_loop_tells rs t)

pub watch_loop-tells :
    (pre f : File) (r : LogRound) (rs : List LogRound)
    → AllReady (r ∷ rs)
    → told (watch_loop (r ∷ rs) (pre ++ f) (length pre)).0
      ≡ commons_of (buffered (f ++ all_added (r ∷ rs)))
watch_loop-tells pre f r rs (h, t) =
    ap (λ n. told (watch_loop (r ∷ rs) (pre ++ f) n).0) (omega arith)
    ∙ (ap (λ w. told w.0) (watch_loop-behind (r ∷ rs) pre f 0)
        ∙ watch_loop-step r rs f h (watch_loop_tells rs t))
