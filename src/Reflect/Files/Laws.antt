-- ===== src/Reflect/Files/Laws.antt =====
-- What the moves into a backup directory do to each file.
use others.Base.{
  ◌≡◌, ◌≢◌, ◌⊎◌, inl, inr, arith, refl, ap, ◌∙◌, Bool, true, false, ◌||◌, if◌then◌else◌, List, [],
  ◌∷◌, none, some, Bytes, bytes_eq, bytes_eq→eq, Bool-cases, Option-cases,
}
use others.Reflect.Files.{
  Directory, contents_of, write_file, unlink_file, CommandEnd, is_success, move_file, move_all,
}

-- What a read sees after a write, wherever the two stand.
pub contents_of-write_file :
    (k j v : Bytes) (d : Directory)
    → contents_of j (write_file k v d) ≡ (if bytes_eq k j then some v else contents_of j d)
unfolding contents_of write_file
contents_of-write_file k j v [] = refl
contents_of-write_file k j v ((i, w) ∷ d) = elim (Bool-cases (bytes_eq i k)) [
  | inl same ↦ rw (same, bytes_eq→eq i k same) (ground arith)
  | inr other ↦ rw other (elim (Bool-cases (bytes_eq k j)) [
    | inl e ↦
        let n = rw (bytes_eq→eq k j e) at other in ground (arith, contents_of-write_file k j v d)
    | inr n ↦ ground (arith, contents_of-write_file k j v d)
  ])
]

-- What a read sees after a file is removed.
pub contents_of-unlink_file :
    (k j : Bytes) (d : Directory)
    → contents_of j (unlink_file k d) ≡ (if bytes_eq k j then none else contents_of j d)
unfolding contents_of unlink_file
contents_of-unlink_file k j [] = ground arith
contents_of-unlink_file k j ((i, w) ∷ d) = elim (Bool-cases (bytes_eq i k)) [
  | inl same ↦ rw same (rw (bytes_eq→eq i k same) (ground (arith, contents_of-unlink_file k j d)))
  | inr other ↦ rw other (elim (Bool-cases (bytes_eq k j)) [
    | inl e ↦
        let n = rw (bytes_eq→eq k j e) at other in ground (arith, contents_of-unlink_file k j d)
    | inr n ↦ ground (arith, contents_of-unlink_file k j d)
  ])
]

-- A file is where it was, or it has been moved.
abbrev pub IsKept : Bytes → Bytes → Directory → Directory → Type 0
IsKept k v from to =
    (contents_of k from ≡ some v) ⊎ ((contents_of k from ≡ none) × (contents_of k to ≡ some v))

-- A command either changes nothing and fails, or moves the file, which was there.
move_file-cases :
    (e : CommandEnd) (name : Bytes) (from to : Directory)
    → (move_file e name from to ≡ record { ok = false; from = from; to = to })
      ⊎ ((w : Bytes) × (contents_of name from ≡ some w)
          × (move_file e name from to
              ≡ record { ok = true; from = unlink_file name from; to = write_file name w to }))
unfolding move_file
move_file-cases e name from to = elim (Option-cases (contents_of name from)) [
  | inl gone ↦ inl (rw (gone, move_file) refl)
  | inr (w, there) ↦ elim (Bool-cases (is_success e)) [
    | inr bad ↦ inl (rw (there, bad, move_file) refl)
    | inl good ↦ inr (w, there, rw (there, good, move_file) refl)
  ]
]

same-reads :
    (name k : Bytes) (from : Directory)
    → bytes_eq name k ≡ true
    → contents_of name from ≡ contents_of k from
same-reads name k from e = ap (λ t. contents_of t from) (bytes_eq→eq name k e)

-- What is read after the move of a file with the contents `w`.
moved-reads :
    (name k w : Bytes) (from to : Directory)
    → contents_of name from ≡ some w
    → (contents_of k (unlink_file name from)
        ≡ (if bytes_eq name k then none else contents_of k from))
      × (contents_of k (write_file name w to)
          ≡ (if bytes_eq name k then contents_of k from else contents_of k to))
moved-reads name k w from to there = elim (Bool-cases (bytes_eq name k)) [
  | inl e ↦
      let there' = rw (bytes_eq→eq name k e) at there in
      (contents_of-unlink_file name k from, ground (arith, contents_of-write_file name k w to))
  | inr n ↦
      (contents_of-unlink_file name k from, ground (arith, contents_of-write_file name k w to))
]

-- One command, well or badly ended, keeps every file.
move_file-IsKept :
    (e : CommandEnd) (name k v : Bytes) (from to : Directory)
    → IsKept k v from to
    → IsKept k v (move_file e name from to).from (move_file e name from to).to
move_file-IsKept e name k v from to h = elim (move_file-cases e name from to) [
  | inl same ↦ rw same h
  | inr (w, there, moved) ↦
      rw moved (ground (arith, moved-reads name k w from to there, same-reads name k from))
]

-- However the commands end, every file is where it was or in the backup, with its contents.
pub move_all-IsKept :
    (ends : Bytes → CommandEnd) (ns : List Bytes) (k v : Bytes) (from to : Directory)
    → IsKept k v from to
    → IsKept k v (move_all ends ns from to).from (move_all ends ns from to).to
unfolding move_all
move_all-IsKept ends [] k v from to h = h
move_all-IsKept ends (n ∷ ns) k v from to h =
    let first = move_file-IsKept (ends n) n k v from to h in
    let m = move_file (ends n) n from to in
    elim (Bool-cases m.ok) [
      | inl good ↦ rw good (move_all-IsKept ends ns k v m.from m.to first)
      | inr bad ↦ rw bad first
    ]

abbrev pub member : Bytes → List Bytes → Bool
member k [] = false
member k (n ∷ ns) = bytes_eq n k || member k ns

-- The two directories after one command that succeeds.
pub move_file-reads :
    (e : CommandEnd) (name k : Bytes) (from to : Directory)
    → (move_file e name from to).ok ≡ true
    → (contents_of k (move_file e name from to).from
        ≡ (if bytes_eq name k then none else contents_of k from))
      × (contents_of k (move_file e name from to).to
          ≡ (if bytes_eq name k then contents_of k from else contents_of k to))
      × (contents_of name from ≢ none)
move_file-reads e name k from to h = elim (move_file-cases e name from to) [
  | inl same ↦ ground arith
  | inr (w, there, moved) ↦
      let (r, s) = moved-reads name k w from to there in rw moved (r, s, λ gone. cc)
]

move_all-step :
    (ends : Bytes → CommandEnd) (n : Bytes) (ns : List Bytes) (from to : Directory)
    → (move_all ends (n ∷ ns) from to).ok ≡ true
    → let m = move_file (ends n) n from to in
      (m.ok ≡ true) × (move_all ends (n ∷ ns) from to ≡ move_all ends ns m.from m.to)
unfolding move_all
move_all-step ends n ns from to h =
    let m = move_file (ends n) n from to in
    elim (Bool-cases m.ok) [ inr bad ↦ ground arith | inl good ↦ (good, rw good refl) ]

-- Where all commands succeed, a file that is not there was not named.
move_all-present :
    (ends : Bytes → CommandEnd) (ns : List Bytes) (k : Bytes) (from to : Directory)
    → (move_all ends ns from to).ok ≡ true
    → contents_of k from ≡ none
    → member k ns ≡ false
move_all-present ends [] k from to h gone = refl
move_all-present ends (n ∷ ns) k from to h gone =
    let m = move_file (ends n) n from to in
    let (good, rest) = move_all-step ends n ns from to h in
    let (read, _, present) = move_file-reads (ends n) n k from to good in
    elim (Bool-cases (bytes_eq n k)) [
      | inl e ↦ absurd (present (rw (bytes_eq→eq n k e) gone))
      | inr other ↦
          rw other (move_all-present ends ns k m.from m.to (rw (← rest) h) (read ∙ rw other gone))
    ]

-- Where all commands succeed, the named files are in the backup as they were, the others are
-- where they were, and the rest of the backup is as it was.
pub move_all-moves :
    (ends : Bytes → CommandEnd) (ns : List Bytes) (k : Bytes) (from to : Directory)
    → (move_all ends ns from to).ok ≡ true
    → (contents_of k (move_all ends ns from to).from
        ≡ (if member k ns then none else contents_of k from))
      × (contents_of k (move_all ends ns from to).to
          ≡ (if member k ns then contents_of k from else contents_of k to))
move_all-moves ends [] k from to h = unfold move_all in (refl, refl)
move_all-moves ends (n ∷ ns) k from to h =
    let m = move_file (ends n) n from to in
    let (good, rest) = move_all-step ends n ns from to h in
    let (read_from, read_to, _) = move_file-reads (ends n) n k from to good in
    let rest_ok : (move_all ends ns m.from m.to).ok ≡ true = rw (← rest) h in
    let (later_from, later_to) = move_all-moves ends ns k m.from m.to rest_ok in
    elim (Bool-cases (bytes_eq n k)) [
      | inl e ↦
          let once = move_all-present ends ns k m.from m.to rest_ok (read_from ∙ rw e refl) in
          rw (rest, e)
            (later_from ∙ rw once (read_from ∙ rw e refl), later_to ∙ rw once (read_to ∙ rw e refl))
      | inr other ↦ rw (rest, other) (ground arith)
    ]
