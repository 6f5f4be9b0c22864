-- ===== src/Common/Log/Rotation.antt =====
-- What the two files of a log hold, and where a restart goes on.
use others.Base.{
  ℕ, ◌<◌, ◌≡◌, ◌⊎◌, inl, inr, arith, refl, sym, ap, ◌∙◌, subst, true, false, ◌&&◌, List, [], ◌∷◌,
  ◌++◌, Option, none, some, Bytes, bytes_eq, append-nil, append_assoc, ltb, Bool-cases,
}
use others.Common.Log.{
  File, log_file_end, size, Which, file_1, file_2, append_at, choose, last_part, has_return,
  check_end, RtwLog, new_log, check_size, log, log_all, stat_of, reopen,
}

-- The lines that are still in the files, the older ones first, without the end line, are all those
-- logged but some at the front; where any are gone, the older file has more than max_size bytes.
abbrev pub IsKept : List Bytes → RtwLog → Type 0
IsKept logged s =
    ((s.previous ≡ none) × (logged ≡ s.current))
    ⊎ ((front : List Bytes) × (older : File) × (s.previous ≡ some (older ++ log_file_end ∷ []))
        × (s.max_size < size older)
        × (logged ≡ front ++ (older ++ s.current)))

log-IsKept :
    (logged : List Bytes) (m : Bytes) (s : RtwLog)
    → IsKept logged s
    → IsKept (logged ++ m ∷ []) (log m s)
unfolding log check_size
log-IsKept logged m s k = elim (Bool-cases (ltb 0 s.max_size && ltb s.max_size (size s.current))) [
  | inl t ↦ elim k [
    | inl (p, e) ↦ rw t (inr ([], s.current, refl, ground arith, ap (λ l. l ++ m ∷ []) e))
    | inr (front, older, p, big, e) ↦ rw t (
        inr (
          front ++ older,
          s.current,
          refl,
          ground arith,
          ap (λ l. l ++ m ∷ []) e
              ∙ ap (λ l. l ++ m ∷ []) (sym (append_assoc front older s.current))
              ∙ append_assoc (front ++ older) s.current (m ∷ []),
        ))
  ]
  | inr t ↦ elim k [
    | inl (p, e) ↦ rw t (inl (p, ap (λ l. l ++ m ∷ []) e))
    | inr (front, older, p, big, e) ↦ rw t (
        inr (
          front,
          older,
          p,
          big,
          ap (λ l. l ++ m ∷ []) e
              ∙ append_assoc front (older ++ s.current) (m ∷ [])
              ∙ ap (λ l. front ++ l) (append_assoc older s.current (m ∷ [])),
        ))
  ]
]

log_all-IsKept :
    (logged ms : List Bytes) (s : RtwLog) → IsKept logged s → IsKept (logged ++ ms) (log_all ms s)
unfolding log_all
log_all-IsKept logged [] s k = subst (λ l. IsKept l s) (sym (append-nil logged)) k
log_all-IsKept logged (m ∷ ms) s k =
    subst (λ l. IsKept l (log_all ms (log m s))) (append_assoc logged (m ∷ []) ms)
      (log_all-IsKept (logged ++ m ∷ []) ms (log m s) (log-IsKept logged m s k))

-- Whatever is logged from a new log on, the two files together hold the last lines of it in their
-- order, and lines are missing only where the older file holds more than max_size bytes of lines.
pub log_all-keeps : (max : ℕ) (ms : List Bytes) → IsKept ms (log_all ms (new_log max))
unfolding new_log
log_all-keeps max ms = log_all-IsKept [] ms (new_log max) (inl (refl, refl))

-- The current file does not end with the end line, and the other one, if there is one, does.
abbrev IsLive : RtwLog → Type 0
IsLive s =
    (check_end s.current ≡ some false)
    × ((s.previous ≡ none) ⊎ ((f : File) × (s.previous ≡ some f) × (check_end f ≡ some true)))

check_end-last :
    (f : File) (l : Bytes) → check_end (f ++ l ∷ []) ≡ some (bytes_eq (last_part l) log_file_end)
unfolding check_end
check_end-last [] l = refl
check_end-last (x ∷ []) l = refl
check_end-last (x ∷ y ∷ f) l = check_end-last (y ∷ f) l

end_part : bytes_eq (last_part log_file_end) log_file_end ≡ true
unfolding last_part has_return bytes_eq
end_part = refl

log-IsLive :
    (m : Bytes) (s : RtwLog)
    → bytes_eq (last_part m) log_file_end ≡ false
    → (s.previous ≡ none) ⊎ ((f : File) × (s.previous ≡ some f) × (check_end f ≡ some true))
    → IsLive (log m s)
unfolding log check_size
log-IsLive m s e k = elim (Bool-cases (ltb 0 s.max_size && ltb s.max_size (size s.current))) [
  | inl t ↦ rw t (
    check_end-last [] m ∙ ap some e,
    inr (_, refl, check_end-last s.current log_file_end ∙ ap some end_part),
  )
  | inr t ↦ rw t (check_end-last s.current m ∙ ap some e, k)
]

-- A list of messages none of which has the end line as its last line.
abbrev pub AllMessages : List Bytes → Type 0
AllMessages [] = true ≡ true
AllMessages (m ∷ ms) = (bytes_eq (last_part m) log_file_end ≡ false) × AllMessages ms

log_all-IsLive : (ms : List Bytes) (s : RtwLog) → AllMessages ms → IsLive s → IsLive (log_all ms s)
unfolding log_all
log_all-IsLive [] s a k = k
log_all-IsLive (m ∷ ms) s a k = log_all-IsLive ms (log m s) a.1 (log-IsLive m s a.0 k.1)

abbrev parts : Which → File → Option File → ℕ → RtwLog
parts w f p max = record { log_name = w; current = f; previous = p; max_size = max }

parts-reopen :
    (t1 t2 : ℕ) (w : Which) (f : File) (p : Option File) (max : ℕ)
    → IsLive (parts w f p max)
    → reopen t1 t2 (parts w f p max) ≡ some (w, append_at (some (size f)))
unfolding reopen stat_of choose
parts-reopen t1 t2 file_1 f none max k = ground arith
parts-reopen t1 t2 file_2 f none max k = ground arith
parts-reopen t1 t2 file_1 f (some g) max k = ground arith
parts-reopen t1 t2 file_2 f (some g) max k = ground arith

live-reopens :
    (t1 t2 : ℕ) (s : RtwLog)
    → IsLive s
    → reopen t1 t2 s ≡ some (s.log_name, append_at (some (size s.current)))
unfolding reopen stat_of choose
live-reopens t1 t2 s k = parts-reopen t1 t2 s.log_name s.current s.previous s.max_size k

-- A restart after one or more messages, none of them with the end line as its last line, goes on at the end of the file
-- that the log wrote last, whatever the times of change of the two files.
pub log_all-reopens :
    (max t1 t2 : ℕ) (m : Bytes) (ms : List Bytes)
    → AllMessages (m ∷ ms)
    → let s = log_all (m ∷ ms) (new_log max) in
      reopen t1 t2 s ≡ some (s.log_name, append_at (some (size s.current)))
unfolding log_all
log_all-reopens max t1 t2 m ms a = live-reopens t1 t2 _ (
    log_all-IsLive ms (log m (new_log max)) a.1
      (log-IsLive m (new_log max) a.0 (inl (unfold new_log in refl))))
