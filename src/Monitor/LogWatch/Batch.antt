-- ===== src/Monitor/LogWatch/Batch.antt =====
-- What a batch of lines tells the operator, and which file the monitor reads.
use others.Base.{
  ℕ, ◌≡◌, ◌⊎◌, inl, inr, arith, refl, sym, ap, ◌∙◌, true, false, not, ◌&&◌, List, [], ◌∷◌, ◌++◌,
  Option, none, some, if◌then◌else◌, Bool-cases, Bytes, find, append_assoc, append-nil, ltb,
  starts_with,
}
use others.Common.Log.{
  File, Which, file_1, file_2, RtwLog, new_log, log, log_all, check_size, file_named, log_file_end,
  size,
}
use others.Monitor.LogWatch.{
  AoCommand, AoCmdType, unknown, hc_counter, work_counter, other_counter, common,
  AoCommandContainer, is_unknown, is_valid_cmd_line_buf, is_log_end, get_ao_cmd_from_line,
  add_typed, read_batch, last_line, is_current, get_current_log_file, no_command, empty_container,
}

-- A line is taken for a command just where it gives a command of a known type.
pub valid-has_type :
    (l : Bytes) → is_valid_cmd_line_buf l ≡ not (is_unknown (get_ao_cmd_from_line l).type)
unfolding is_valid_cmd_line_buf get_ao_cmd_from_line
valid-has_type l = ground arith

-- The lines up to the end of the log.
unfoldable pub before_end : List Bytes → List Bytes
before_end [] = []
before_end (l ∷ ls) =
    let rest = l ∷ before_end ls in
    if is_valid_cmd_line_buf l then rest else if is_log_end l then [] else rest

-- The commands of some lines.
unfoldable pub commands : List Bytes → List AoCommand
commands [] = []
commands (l ∷ ls) =
    let rest = commands ls in
    if is_valid_cmd_line_buf l then get_ao_cmd_from_line l ∷ rest else rest

-- Adding commands one after the other.
pub add_all : List AoCommand → AoCommandContainer → AoCommandContainer
add_all [] c = c
add_all (a ∷ cs) c = add_all cs (add_typed a.type a c)

-- A batch is just the commands of its lines up to the end of the log.
pub read_batch-commands :
    (ls : List Bytes) (c : AoCommandContainer)
    → (read_batch ls c).0 ≡ add_all (commands (before_end ls)) c
unfolding read_batch before_end commands add_all
read_batch-commands [] c = refl
read_batch-commands (l ∷ ls) c =
    let a = get_ao_cmd_from_line l in
    let skipped = read_batch-commands ls c in
    let added = read_batch-commands ls (add_typed a.type a c) in
    elim (Bool-cases (is_valid_cmd_line_buf l)) [
      | inl v ↦ rw (v, commands) (rw v added)
      | inr v ↦ elim (Bool-cases (is_log_end l)) [
        | inl e ↦ rw (v, e) refl
        | inr e ↦ rw (v, e, commands) (rw v skipped)
      ]
    ]

-- The commands that are no counters, and the last command of a kind.
unfoldable pub commons : List AoCommand → List AoCommand
commons [] = []
commons (a ∷ cs) =
    let rest = commons cs in
    elim a.type [
      | hc_counter ↦ rest
      | work_counter ↦ rest
      | other_counter ↦ rest
      | unknown ↦ a ∷ rest
      | common ↦ a ∷ rest
    ]

unfoldable pub last_hc : AoCommand → List AoCommand → AoCommand
last_hc old [] = old
last_hc old (a ∷ cs) = elim a.type [ hc_counter ↦ last_hc a cs | _ ↦ last_hc old cs ]

add_typed-commons :
    (t : AoCmdType) (a : AoCommand) (c : AoCommandContainer) (cs : List AoCommand)
    → (add_typed t a c).common_cmd_vector ++ cs
      ≡ c.common_cmd_vector ++ (elim t [
        | hc_counter ↦ cs
        | work_counter ↦ cs
        | other_counter ↦ cs
        | unknown ↦ a ∷ cs
        | common ↦ a ∷ cs
      ])
unfolding add_typed
add_typed-commons unknown a c cs = append_assoc c.common_cmd_vector (a ∷ []) cs
add_typed-commons hc_counter a c cs = refl
add_typed-commons work_counter a c cs = refl
add_typed-commons other_counter a c cs = refl
add_typed-commons common a c cs = append_assoc c.common_cmd_vector (a ∷ []) cs

add_all-commons :
    (cs : List AoCommand) (c : AoCommandContainer)
    → (add_all cs c).common_cmd_vector ≡ c.common_cmd_vector ++ commons cs
unfolding add_all commons
add_all-commons [] c = sym (append-nil c.common_cmd_vector)
add_all-commons (a ∷ cs) c =
    add_all-commons cs (add_typed a.type a c) ∙ add_typed-commons a.type a c (commons cs)

add_all-last_hc :
    (cs : List AoCommand) (c : AoCommandContainer)
    → (add_all cs c).hc_cnt_cmd ≡ last_hc c.hc_cnt_cmd cs
unfolding add_all last_hc add_typed
add_all-last_hc [] c = refl
add_all-last_hc (a ∷ cs) c = let rest = add_all-last_hc cs (add_typed a.type a c) in ground arith

-- A batch tells all the commands that are no counters in their order, and of the health check
-- counter the last value, of its lines up to the end of the log.
pub read_batch-tells :
    (ls : List Bytes)
    → let c = (read_batch ls empty_container).0 in
      let told = commands (before_end ls) in
      (c.common_cmd_vector ≡ commons told) × (c.hc_cnt_cmd ≡ last_hc no_command told)
read_batch-tells ls =
    let told = commands (before_end ls) in
    let e = read_batch-commands ls empty_container in
    (
      ap (λ c. c.common_cmd_vector) e ∙ add_all-commons told empty_container,
      ap (λ c. c.hc_cnt_cmd) e ∙ add_all-last_hc told empty_container,
    )

-- The file is watched while its last line has no end flag.
last_line-append : (l m : Bytes) (ls : File) → last_line l (ls ++ m ∷ []) ≡ m
unfolding last_line
last_line-append l m [] = refl
last_line-append l m (x ∷ ls) = last_line-append x m ls

is_current-append : (f : File) (m : Bytes) → is_current (some (f ++ m ∷ [])) ≡ not (is_log_end m)
unfolding is_current last_line
is_current-append [] m = refl
is_current-append (l ∷ ls) m = ap (λ x. not (is_log_end x)) (last_line-append l m ls)

end_line-ends : is_log_end log_file_end ≡ true
unfolding is_log_end find starts_with
end_line-ends = refl

abbrev IsWatched : RtwLog → Type 0
IsWatched s =
    (is_current (some s.current) ≡ true)
    × ((s.previous ≡ none) ⊎ ((f : File) × (s.previous ≡ some f) × (is_current (some f) ≡ false)))

log-IsWatched :
    (m : Bytes) (s : RtwLog)
    → is_log_end m ≡ false
    → (s.previous ≡ none) ⊎ ((f : File) × (s.previous ≡ some f) × (is_current (some f) ≡ false))
    → IsWatched (log m s)
unfolding log check_size
log-IsWatched m s e k = elim (Bool-cases (ltb 0 s.max_size && ltb s.max_size (size s.current))) [
  | inl t ↦ rw t (
    is_current-append [] m ∙ ap not e,
    inr (_, refl, is_current-append s.current log_file_end ∙ ap not end_line-ends),
  )
  | inr t ↦ rw t (is_current-append s.current m ∙ ap not e, k)
]

-- Messages without an end flag in them.
abbrev pub AllOpen : List Bytes → Type 0
AllOpen [] = true ≡ true
AllOpen (m ∷ ms) = (is_log_end m ≡ false) × AllOpen ms

log_all-IsWatched :
    (ms : List Bytes) (s : RtwLog) → AllOpen ms → IsWatched s → IsWatched (log_all ms s)
unfolding log_all
log_all-IsWatched [] s a k = k
log_all-IsWatched (m ∷ ms) s a k = log_all-IsWatched ms (log m s) a.1 (log-IsWatched m s a.0 k.1)

abbrev parts : Which → File → Option File → ℕ → RtwLog
parts w f p max = record { log_name = w; current = f; previous = p; max_size = max }

none-current : is_current none ≡ false
unfolding is_current
none-current = refl

parts-follow :
    (t1 t2 : ℕ) (w : Which) (f : File) (p : Option File) (max : ℕ)
    → IsWatched (parts w f p max)
    → get_current_log_file t1 t2
        (file_named file_1 (parts w f p max))
        (file_named file_2 (parts w f p max))
      ≡ some w
unfolding get_current_log_file
parts-follow t1 t2 file_1 f none max k = let e = none-current in ground arith
parts-follow t1 t2 file_2 f none max k = let e = none-current in ground arith
parts-follow t1 t2 file_1 f (some g) max k = ground arith
parts-follow t1 t2 file_2 f (some g) max k = ground arith

follow :
    (t1 t2 : ℕ) (s : RtwLog)
    → IsWatched s
    → get_current_log_file t1 t2 (file_named file_1 s) (file_named file_2 s) ≡ some s.log_name
follow t1 t2 s k = parts-follow t1 t2 s.log_name s.current s.previous s.max_size k

-- After one or more messages without an end flag in them the monitor reads the file that the log
-- wrote last, whatever the times of change of the two files.
pub get_current_log_file-follows :
    (max t1 t2 : ℕ) (m : Bytes) (ms : List Bytes)
    → AllOpen (m ∷ ms)
    → let s = log_all (m ∷ ms) (new_log max) in
      get_current_log_file t1 t2 (file_named file_1 s) (file_named file_2 s) ≡ some s.log_name
unfolding log_all
get_current_log_file-follows max t1 t2 m ms a =
    let s = log m (new_log max) in
    let w = log-IsWatched m (new_log max) a.0 (inl (unfold new_log in refl)) in
    follow t1 t2 (log_all ms s) (log_all-IsWatched ms s a.1 w)
