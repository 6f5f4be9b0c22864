-- ===== src/Monitor/LogWatch/LastLine/Backwards.antt =====
-- Where reading backwards from the end of a log file comes to.
use others.Base.{
  ℕ, zero, suc, ◌+◌, ◌-◌, ◌≤◌, ◌<◌, ◌≡◌, ◌⊎◌, inl, inr, arith, refl, sym, ap, ◌∙◌, subst, Bool,
  true, false, not, ◌&&◌, ◌==◌, [], ◌∷◌, ◌++◌, some, Bytes, get_elem?, length, length-append, drop,
  is_empty,
}
use others.Common.Log.{File}
use others.Monitor.LogWatch.{last_line}
use others.Monitor.LogWatch.LastLine.{is_return, char_at, skip_returns, line_start, seek_last_line}

-- The bytes of a file of lines.
unfoldable pub text : File → Bytes
text [] = []
text (l ∷ ls) = l ++ 10 ∷ text ls

-- A line without ends of lines and zero bytes in it.
unfoldable pub is_plain : Bytes → Bool
is_plain [] = true
is_plain (c ∷ l) = not (c == 0) && not (is_return c) && is_plain l

line_start-return : (f : Bytes) (c p : ℕ) → is_return c ≡ true → line_start f c p ≡ p
unfolding line_start
line_start-return f c zero h = refl
line_start-return f c (suc zero) h = rw h refl
line_start-return f c (suc (suc zero)) h = rw h refl
line_start-return f c (suc (suc (suc p))) h = rw h refl

≤_cases : (m n : ℕ) → (m ≤ n) ⊎ (n < m)
≤_cases m n = ground arith

-- A line starts at `m`: at the front, or behind an end of line that is not the first byte.
abbrev IsStart : Bytes → ℕ → Type 0
IsStart f m = (m ≡ 0) ⊎ ((r : ℕ) × (m ≡ suc (suc r)) × (is_return (char_at f (suc r)) ≡ true))

line_start-IsStart :
    (f : Bytes) (m e p : ℕ)
    → IsStart f m
    → ((i : ℕ) → m ≤ i → i < e → is_return (char_at f i) ≡ false)
    → m ≤ p
    → p < e
    → line_start f (char_at f p) (suc p) ≡ m
unfolding line_start
line_start-IsStart f m e zero s plain a b = rw (plain 0 a b) (omega (arith, a))
line_start-IsStart f m e (suc zero) s plain a b =
    let z : m ≡ 0 = elim s [ inl z ↦ z | inr (r, z, n) ↦ omega (arith, z, a) ] in
    rw (plain 1 a b) (sym z)
line_start-IsStart f m e (suc (suc q)) s plain a b =
    rw (plain (suc (suc q)) a b) (elim (≤_cases m (suc q)) [
      | inl l ↦ line_start-IsStart f m e (suc q) s plain l (omega (arith, b))
      | inr g ↦ elim s [
        | inl z ↦ omega (arith, z, g)
        | inr (r, z, n) ↦
            let x : r ≡ q = omega (arith, z, g, a) in
            let n' : is_return (char_at f (suc q)) ≡ true =
              subst (λ r. is_return (char_at f (suc r)) ≡ true) x n in
            line_start-return f (char_at f (suc q)) (suc (suc q)) n' ∙ omega (arith, z, x)
      ]
    ])

-- A file of lines as they are logged: none is empty.
unfoldable pub is_logged : File → Bool
is_logged [] = true
is_logged (l ∷ ls) = not (is_empty l) && is_plain l && is_logged ls

zero_add : (n : ℕ) → 0 + n ≡ n
zero_add n = omega arith

suc_add : (m n : ℕ) → suc m + n ≡ suc (m + n)
suc_add m n = omega arith

char_at-drop : (m j : ℕ) (f : Bytes) → char_at f (m + j) ≡ char_at (drop m f) j
char_at-drop zero j f = rw (zero_add j) refl
char_at-drop (suc m) j [] = refl
char_at-drop (suc m) j (c ∷ f) = rw (suc_add m j) (char_at-drop m j f)

pub get_elem?-char_at : (f : Bytes) (i : ℕ) → i < length f → get_elem? f i ≡ some (char_at f i)
get_elem?-char_at [] i h = ground arith
get_elem?-char_at (c ∷ f) zero h = refl
get_elem?-char_at (c ∷ f) (suc i) h = get_elem?-char_at f i (omega (arith, h))

pub is_plain-char_at :
    (l s : Bytes) (j : ℕ)
    → is_plain l ≡ true
    → j < length l
    → is_return (char_at (l ++ s) j) ≡ false
unfolding is_plain
is_plain-char_at [] s j h b = ground arith
is_plain-char_at (c ∷ l) s zero h b = ground arith
is_plain-char_at (c ∷ l) s (suc j) h b = is_plain-char_at l s j (ground arith) (omega (arith, b))

pub char_at-append : (l s : Bytes) (c : ℕ) → char_at (l ++ c ∷ s) (length l) ≡ c
char_at-append [] s c = refl
char_at-append (d ∷ l) s c = char_at-append l s c

drop-append : (l s : Bytes) (c m : ℕ) → drop (length l + suc m) (l ++ c ∷ s) ≡ drop m s
drop-append [] s c m = rw (zero_add (suc m)) refl
drop-append (d ∷ l) s c m = rw (suc_add (length l) (suc m)) (drop-append l s c m)

char_at-behind : (l s : Bytes) (c j : ℕ) → char_at (l ++ c ∷ s) (length l + suc j) ≡ char_at s j
char_at-behind [] s c j = rw (zero_add (suc j)) refl
char_at-behind (d ∷ l) s c j = rw (suc_add (length l) (suc j)) (char_at-behind l s c j)

pub skip_returns-stays : (f : Bytes) (c p : ℕ) → is_return c ≡ false → skip_returns f c p ≡ (p, c)
unfolding skip_returns
skip_returns-stays f c zero h = refl
skip_returns-stays f c (suc zero) h = rw h refl
skip_returns-stays f c (suc (suc zero)) h = rw h refl
skip_returns-stays f c (suc (suc (suc p))) h = rw h refl

-- Where the last line `l` stands in a file.
abbrev pub Ends : Bytes → Bytes → ℕ → Type 0
Ends f l m = IsStart f m × (drop m f ≡ l ++ 10 ∷ []) × (length f ≡ m + suc (length l))

-- It stands where all lines are logged.
pub text-Ends :
    (l : Bytes) (ls : File)
    → is_logged (l ∷ ls) ≡ true
    → (m : ℕ) × Ends (text (l ∷ ls)) (last_line l ls) m
unfolding is_logged text last_line
text-Ends l [] h = (0, (inl refl, refl, omega (arith, length-append l (10 ∷ []))))
text-Ends [] (k ∷ ls) h = ground arith
text-Ends (c ∷ l) (k ∷ ls) h =
    let (m, (s, e, n)) = text-Ends k ls (ground arith) in
    let t = text (k ∷ ls) in
    (
      length (c ∷ l) + suc m,
      (
        elim s [
          | inl z ↦ inr (length l, omega (arith, z), rw (char_at-append l t 10) refl)
          | inr (r, z, d) ↦
              inr (length l + suc (suc r), omega (arith, z), rw (char_at-behind l t 10 (suc r)) d)
        ],
        drop-append (c ∷ l) t 10 m ∙ e,
        omega (arith, length-append (c ∷ l) (10 ∷ t), n),
      ),
    )

Ends-char_at :
    (f l : Bytes) (m i : ℕ)
    → is_plain l ≡ true
    → Ends f l m
    → m ≤ i
    → i < m + length l
    → is_return (char_at f i) ≡ false
Ends-char_at f l m i h (s, e, n) a b =
    let j : i ≡ m + (i - m) = omega (arith, a) in
    let x : char_at f i ≡ char_at (l ++ 10 ∷ []) (i - m) =
      ap (char_at f) j ∙ char_at-drop m (i - m) f ∙ ap (λ t. char_at t (i - m)) e in
    rw x (is_plain-char_at l (10 ∷ []) (i - m) h (omega (arith, a, b)))

Ends-return : (f l : Bytes) (m : ℕ) → Ends f l m → char_at f (m + length l) ≡ 10
Ends-return f l m (s, e, n) =
    char_at-drop m (length l) f ∙ ap (λ t. char_at t (length l)) e ∙ char_at-append l [] 10

-- Where the file has two bytes more than `q`.
seek_last_line-from :
    (f : Bytes) (c : ℕ) (l : Bytes) (m q : ℕ)
    → is_plain (c ∷ l) ≡ true
    → Ends f (c ∷ l) m
    → q ≡ m + length l
    → seek_last_line f (suc (suc q)) ≡ m
unfolding seek_last_line skip_returns line_start
seek_last_line-from f c l m zero h t x =
    let y : char_at f 1 ≡ 10 =
      subst (λ i. char_at f i ≡ 10) (omega (arith, x)) (Ends-return f (c ∷ l) m t) in
    rw y (omega (arith, x))
seek_last_line-from f c l m (suc q) h t x =
    let y : char_at f (suc (suc (suc q)) - 1) ≡ 10 =
      subst (λ i. char_at f i ≡ 10) (omega (arith, x)) (Ends-return f (c ∷ l) m t) in
    let (s, e, n) = t in
    let g = get_elem?-char_at f (suc q) (omega (arith, x, n)) in
    let b = Ends-char_at f (c ∷ l) m (suc q) h t (omega (arith, x)) (omega (arith, x)) in
    rw (y, g, skip_returns-stays f (char_at f (suc q)) (suc (suc q)) b)
      (line_start-IsStart f m (m + length (c ∷ l)) (suc q) s (λ i. Ends-char_at f (c ∷ l) m i h t)
        (omega (arith, x)) (omega (arith, x)))

pub seek_last_line-Ends :
    (f : Bytes) (c : ℕ) (l : Bytes) (m : ℕ)
    → is_plain (c ∷ l) ≡ true
    → Ends f (c ∷ l) m
    → seek_last_line f (length f) ≡ m
seek_last_line-Ends f c l m h (s, e, n) =
    let x : length f ≡ suc (suc (m + length l)) = omega (arith, n) in
    rw x (seek_last_line-from f c l m (m + length l) h (s, e, n) refl)
