-- ===== src/Reflect/Merge.antt =====
-- What MergeFile and MergeCsvFile write, and which names PollCsvFile keeps.
use Prim.Native.Nat.add
use others.Base.{
  ℕ, suc, zero, ◌+◌, ◌-◌, ◌≤◌, ◌<◌, ◌≡◌, arith, refl, sym, ap, ◌∙◌, subst, Bool, true, false, ltb,
  if◌then◌else◌, List, [], ◌∷◌, ◌++◌, Option, none, some, inl, inr, Bool-cases, Option-cases, Bytes,
  take, drop, length, append_assoc, append-nil, replicate, map,
}
use others.Reflect.{Round, good, bad_read, bad_write, merge_loop, merge_file, merge_csv_file}

take_nil : (n : ℕ) → take {A = ℕ} n [] ≡ []
take_nil zero = refl
take_nil (suc n) = refl

drop_nil : (n : ℕ) → drop {A = ℕ} n [] ≡ []
drop_nil zero = refl
drop_nil (suc n) = refl

take-all : (s : Bytes) → take (length s) s ≡ s
take-all [] = refl
take-all (x ∷ s) = ap (λ t. x ∷ t) (take-all s)

drop-drop : (at a : ℕ) (s : Bytes) → drop (at + a) s ≡ drop a (drop at s)
drop-drop zero a s = rw add.zero refl
drop-drop (suc at) a [] = drop_nil (suc at + a) ∙ sym (drop_nil a)
drop-drop (suc at) a (x ∷ s) = rw add.suc (drop-drop at a s)

take-take : (a b : ℕ) (s : Bytes) → take a s ++ take b (drop a s) ≡ take (a + b) s
take-take zero b s = rw add.zero refl
take-take (suc a) b [] = take_nil b ∙ sym (take_nil (suc a + b))
take-take (suc a) b (x ∷ s) = rw add.suc (ap (λ t. x ∷ t) (take-take a b s))

take-drop-split :
    (a b at : ℕ) (s : Bytes)
    → take a (drop at s) ++ take b (drop (at + a) s) ≡ take (a + b) (drop at s)
take-drop-split a b at s =
    ap (λ t. take a (drop at s) ++ take b t) (drop-drop at a s) ∙ take-take a b (drop at s)

abbrev chunk : ℕ → ℕ → ℕ
chunk buffer l = if ltb buffer (suc l) then buffer else suc l

chunk-bounds : (buffer l : ℕ) → 0 < buffer → (0 < chunk buffer l) × (chunk buffer l ≤ suc l)
chunk-bounds buffer l h = ground arith

rest_small : (op l n : ℕ) → (0 < op) × (op ≤ suc l) → suc l ≤ suc n → suc l - op ≤ n
rest_small op l n b g = omega arith

rest_whole : (op l : ℕ) → (0 < op) × (op ≤ suc l) → op + (suc l - op) ≡ suc l
rest_whole op l b = omega arith

-- With a buffer of at least one byte and no failing round, the loop appends all that is left.
merge_loop-all :
    (n buffer left at : ℕ) (src dest : Bytes) (more : List Round)
    → 0 < buffer
    → left ≤ n
    → merge_loop buffer src at left dest (replicate n good ++ more)
      ≡ some (true, dest ++ take left (drop at src))
unfolding merge_loop
merge_loop-all n buffer zero at src dest more h g = ap (λ d. some (true, d)) (sym (append-nil dest))
merge_loop-all zero buffer (suc l) at src dest more h g = ground arith
merge_loop-all (suc n) buffer (suc l) at src dest more h g =
    let op = chunk buffer l in
    let bounds = chunk-bounds buffer l h in
    merge_loop-all n buffer (suc l - op) (at + op) src (dest ++ take op (drop at src)) more h
      (rest_small op l n bounds g)
    ∙ ap (λ d. some (true, d))
        (append_assoc dest (take op (drop at src)) (take (suc l - op) (drop (at + op) src))
          ∙ ap (λ d. dest ++ d)
              (take-drop-split op (suc l - op) at src
                ∙ ap (λ k. take k (drop at src)) (rest_whole op l bounds)))

-- Where both files open, the buffer is not empty and no round goes wrong, MergeFile appends just
-- the contents of the source, whatever the size of the buffer, in at most one round for each byte.
pub merge_file-appends :
    (buffer : ℕ) (src dest : Bytes)
    → 0 < buffer
    → merge_file buffer (some src) true dest (replicate (length src) good)
      ≡ some (true, dest ++ src)
unfolding merge_file
merge_file-appends buffer src dest h =
    subst (λ rs. merge_loop buffer src 0 (length src) dest rs ≡ some (true, dest ++ src))
      (append-nil (replicate (length src) good))
      (merge_loop-all (length src) buffer (length src) 0 src dest [] h (omega arith)
        ∙ ap (λ t. some (true, dest ++ t)) (take-all src))

-- The contents of the files in a row.
abbrev pub contents : List Bytes → Bytes
contents [] = []
contents (f ∷ fs) = f ++ contents fs

abbrev pub readable : Bytes → Option Bytes × Bool × List Round
readable f = (some f, true, replicate (length f) good)

-- Where all files open, the buffer is not empty and no round goes wrong, MergeCsvFile appends the
-- files one after the other, in the order of the list, whatever the size of the buffer.
pub merge_csv_file-concatenates :
    (buffer : ℕ) (fs : List Bytes) (dest : Bytes)
    → 0 < buffer
    → merge_csv_file buffer (map readable fs) dest ≡ some (true, dest ++ contents fs)
unfolding merge_csv_file
merge_csv_file-concatenates buffer [] dest h = ap (λ d. some (true, d)) (sym (append-nil dest))
merge_csv_file-concatenates buffer (f ∷ fs) dest h =
    rw (merge_file-appends buffer f dest h, merge_csv_file)
      (merge_csv_file-concatenates buffer fs (dest ++ f) h
        ∙ ap (λ d. some (true, d)) (append_assoc dest f (contents fs)))

-- However the rounds end, what the destination held before stays at its front.
pub merge_loop-keeps :
    (buffer left at : ℕ) (src dest : Bytes) (rounds : List Round) (ok : Bool) (out : Bytes)
    → merge_loop buffer src at left dest rounds ≡ some (ok, out)
    → (more : Bytes) × (out ≡ dest ++ more)
unfolding merge_loop
merge_loop-keeps buffer zero at src dest rounds ok out h =
    let e = append-nil dest in ([], ground arith)
merge_loop-keeps buffer (suc l) at src dest [] ok out h = ground arith
merge_loop-keeps buffer (suc l) at src dest (good ∷ rounds) ok out h =
    let op = chunk buffer l in
    let (more, e) =
      merge_loop-keeps buffer (suc l - op) (at + op) src (dest ++ take op (drop at src)) rounds ok
        out h in
    (take op (drop at src) ++ more, e ∙ append_assoc dest (take op (drop at src)) more)
merge_loop-keeps buffer (suc l) at src dest (bad_read ∷ rounds) ok out h =
    let e = append-nil dest in ([], ground arith)
merge_loop-keeps buffer (suc l) at src dest (bad_write ∷ rounds) ok out h =
    let e = append-nil dest in ([], ground arith)

-- However the rounds end: a loop that ends well has appended all that was left.
merge_loop_whole :
    (n buffer left at : ℕ) (src dest : Bytes) (rounds : List Round) (out : Bytes)
    → 0 < buffer
    → left ≤ n
    → merge_loop buffer src at left dest rounds ≡ some (true, out)
    → out ≡ dest ++ take left (drop at src)
unfolding merge_loop
merge_loop_whole n buffer zero at src dest rounds out h g e =
    let a = append-nil dest in ground arith
merge_loop_whole zero buffer (suc l) at src dest rounds out h g e = ground arith
merge_loop_whole (suc n) buffer (suc l) at src dest [] out h g e = ground arith
merge_loop_whole (suc n) buffer (suc l) at src dest (bad_read ∷ rounds) out h g e = ground arith
merge_loop_whole (suc n) buffer (suc l) at src dest (bad_write ∷ rounds) out h g e = ground arith
merge_loop_whole (suc n) buffer (suc l) at src dest (good ∷ rounds) out h g e =
    let op = chunk buffer l in
    let bounds = chunk-bounds buffer l h in
    merge_loop_whole n buffer (suc l - op) (at + op) src (dest ++ take op (drop at src)) rounds out
      h (rest_small op l n bounds g) e
    ∙ (append_assoc dest (take op (drop at src)) (take (suc l - op) (drop (at + op) src))
        ∙ ap (λ d. dest ++ d)
            (take-drop-split op (suc l - op) at src
              ∙ ap (λ k. take k (drop at src)) (rest_whole op l bounds)))

-- With one more round for each byte left, the loop has enough of them.
merge_loop_ends :
    (n buffer left at : ℕ) (src dest : Bytes) (rounds : List Round)
    → 0 < buffer
    → left ≤ n
    → (r : Bool × Bytes) × (merge_loop buffer src at left dest (rounds ++ replicate n good)
        ≡ some r)
unfolding merge_loop
merge_loop_ends n buffer zero at src dest rounds h g = ((true, dest), refl)
merge_loop_ends zero buffer (suc l) at src dest rounds h g = absurd (omega arith)
merge_loop_ends (suc n) buffer (suc l) at src dest (bad_read ∷ rounds) h g = ((false, dest), refl)
merge_loop_ends (suc n) buffer (suc l) at src dest (bad_write ∷ rounds) h g = ((false, dest), refl)
merge_loop_ends (suc n) buffer (suc l) at src dest [] h g =
    let op = chunk buffer l in
    merge_loop_ends n buffer (suc l - op) (at + op) src (dest ++ take op (drop at src)) [] h
      (rest_small op l n (chunk-bounds buffer l h) g)
merge_loop_ends (suc n) buffer (suc l) at src dest (good ∷ rounds) h g =
    let op = chunk buffer l in
    merge_loop_ends (suc n) buffer (suc l - op) (at + op) src (dest ++ take op (drop at src)) rounds
      h (omega (arith, rest_small op l n (chunk-bounds buffer l h) g))

-- A copy that ends well has opened its source, and appended it.
pub merge_file_whole :
    (buffer : ℕ) (f : Option Bytes) (opens : Bool) (dest : Bytes) (rounds : List Round)
    (out : Bytes)
    → 0 < buffer
    → merge_file buffer f opens dest rounds ≡ some (true, out)
    → (s : Bytes) × (f ≡ some s) × (out ≡ dest ++ s)
unfolding merge_file
merge_file_whole buffer none opens dest rounds out h e = ground arith
merge_file_whole buffer (some s) false dest rounds out h e = ground arith
merge_file_whole buffer (some s) true dest rounds out h e = (
  s,
  refl,
  merge_loop_whole (length s) buffer (length s) 0 s dest rounds out h (omega arith) e
      ∙ ap (λ t. dest ++ t) (take-all s),
)

-- The files before and after the first one.
pub merge_csv_file-step :
    (buffer : ℕ) (f : Option Bytes × Bool × List Round)
    (fs : List (Option Bytes × Bool × List Round)) (dest out : Bytes)
    → merge_csv_file buffer (f ∷ fs) dest ≡ some (true, out)
    → (mid : Bytes) × (merge_file buffer f.0 f.1 dest f.2 ≡ some (true, mid))
      × (merge_csv_file buffer fs mid ≡ some (true, out))
unfolding merge_csv_file
merge_csv_file-step buffer f fs dest out e =
    elim (Option-cases (merge_file buffer f.0 f.1 dest f.2)) [
      | inl stuck ↦ ground arith
      | inr ((true, mid), found) ↦ (mid, found, ground arith)
      | inr ((false, mid), found) ↦ ground arith
    ]

-- Enough rounds for the copy of a file: one for each byte, beside those that are given.
abbrev pub HasRounds : Option Bytes × Bool × List Round → Type 0
HasRounds (none, opens, rounds) = Unit {0}
HasRounds (some s, opens, rounds) =
    (given : List Round) × (rounds ≡ given ++ replicate (length s) good)

merge_file_ends :
    (buffer : ℕ) (f : Option Bytes) (opens : Bool) (dest : Bytes) (rounds : List Round)
    → 0 < buffer
    → HasRounds (f, opens, rounds)
    → (r : Bool × Bytes) × (merge_file buffer f opens dest rounds ≡ some r)
unfolding merge_file
merge_file_ends buffer none opens dest rounds h e = ((false, dest), refl)
merge_file_ends buffer (some s) false dest rounds h e = ((false, dest), refl)
merge_file_ends buffer (some s) true dest rounds h (given, e) =
    rw e (merge_loop_ends (length s) buffer (length s) 0 s dest given h (omega arith))

abbrev pub AllHaveRounds : List (Option Bytes × Bool × List Round) → Type 0
AllHaveRounds [] = Unit {0}
AllHaveRounds (f ∷ fs) = HasRounds f × AllHaveRounds fs

-- With enough rounds for each file, MergeCsvFile ends.
pub merge_csv_file_ends :
    (buffer : ℕ) (fs : List (Option Bytes × Bool × List Round)) (dest : Bytes)
    → 0 < buffer
    → AllHaveRounds fs
    → (r : Bool × Bytes) × (merge_csv_file buffer fs dest ≡ some r)
unfolding merge_csv_file
merge_csv_file_ends buffer [] dest h e = ((true, dest), refl)
merge_csv_file_ends buffer ((f, opens, rounds) ∷ fs) dest h (e, es) =
    let (r, found) = merge_file_ends buffer f opens dest rounds h e in
    elim (Bool-cases r.0) [
      | inr bad ↦ ((false, r.1), rw (found, bad, merge_csv_file) refl)
      | inl well ↦ rw (found, well, merge_csv_file) (merge_csv_file_ends buffer fs r.1 h es)
    ]
