-- ===== src/Receive/FixChar/InPlace.antt =====
-- The loop of FixChar that overwrites its own input writes what the repair without indices gives.
use others.Base.{
  ℕ, zero, suc, ◌+◌, ◌≤◌, ◌<◌, ◌≡◌, refl, sym, ap, ◌∙◌, arith, Bool, true, false, ◌||◌, List, [],
  ◌∷◌, ◌++◌, Bytes, length, get_or, set, take, drop, length-set, length-append, length-drop,
  length-drop, ◌==◌, append_assoc, append-nil,
}
use others.Receive.FixChar.{
  FixState, is_pair, fix_pair, is_fixed_pair, fix_step, fix_loop, Repairs, done, single, pair,
  pair_cut, triple, triple_cut_one, triple_cut_two,
}

module _ {ℓ} {A : Type ℓ} where
  take-set :
      (j : ℕ) (xs : List A) (v : A)
      → j < length xs
      → take (suc j) (set xs j v) ≡ take j xs ++ v ∷ []
  take-set zero [] v h = absurd (omega arith)
  take-set (suc j) [] v h = absurd (omega arith)
  take-set zero (x ∷ xs) v h = refl
  take-set (suc j) (x ∷ xs) v h = ap (λ ys. x ∷ ys) (take-set j xs v (omega arith))

  drop-set_of_lt : (j k : ℕ) (xs : List A) (v : A) → j < k → drop k (set xs j v) ≡ drop k xs
  drop-set_of_lt j zero xs v h = absurd (omega arith)
  drop-set_of_lt j (suc k) [] v h = refl
  drop-set_of_lt zero (suc k) (x ∷ xs) v h = refl
  drop-set_of_lt (suc j) (suc k) (x ∷ xs) v h = drop-set_of_lt j k xs v (omega arith)

  get_or-drop :
      (i : ℕ) (xs : List A) {x : A} {rest : List A} (d : A)
      → drop i xs ≡ x ∷ rest
      → get_or xs i d ≡ x
  get_or-drop zero [] d e = cc
  get_or-drop zero (y ∷ ys) d e = cc
  get_or-drop (suc i) [] d e = cc
  get_or-drop (suc i) (y ∷ ys) d e = get_or-drop i ys d e

  drop-tail :
      (i : ℕ) (xs : List A) {x : A} {rest : List A} → drop i xs ≡ x ∷ rest → drop (suc i) xs ≡ rest
  drop-tail zero [] e = cc
  drop-tail zero (y ∷ ys) e = cc
  drop-tail (suc i) [] e = cc
  drop-tail (suc i) (y ∷ ys) e = drop-tail i ys e

  take-set_two :
      (j : ℕ) (xs : List A) (u v : A)
      → suc j < length xs
      → take (suc (suc j)) (set (set xs j u) (suc j) v) ≡ take j xs ++ u ∷ v ∷ []
  take-set_two j xs u v h = rw (
    take-set (suc j) (set xs j u) v (omega (arith, length-set xs j u)),
    take-set j xs u (omega arith),
    append_assoc,
  )

  length-of_drop :
      (i : ℕ) (xs rest : List A) {x : A} → drop i xs ≡ x ∷ rest → length xs ≡ i + suc (length rest)
  length-of_drop zero [] rest e = cc
  length-of_drop zero (y ∷ ys) rest e = omega (arith, ap length e)
  length-of_drop (suc i) [] rest e = cc
  length-of_drop (suc i) (y ∷ ys) rest e = omega (arith, length-of_drop i ys rest e)

  drop-suc : (n : ℕ) (xs : List A) → drop (suc n) xs ≡ drop 1 (drop n xs)
  drop-suc zero xs = refl
  drop-suc (suc n) [] = refl
  drop-suc (suc n) (x ∷ xs) = drop-suc n xs

-- From `s` to `t` the bytes `out` are written, the bytes `rest` are left to read, and `change` says
-- whether the flag is raised.
pub record Wrote (s t : FixState) (out rest : Bytes) (change : Bool) : Type 0 where
  pub taken : take t.j t.buffer ≡ take s.j s.buffer ++ out
  pub left : drop t.i t.buffer ≡ rest
  pub whole : length t.buffer ≡ length s.buffer
  pub count : t.j ≡ s.j + length out
  pub behind : t.j ≤ t.i
  pub flag : t.fixed ≡ (s.fixed || change)

Wrote-trans :
    {s t u : FixState} {out more rest rest' : Bytes} {a b : Bool}
    → Wrote s t out rest a
    → Wrote t u more rest' b
    → Wrote s u (out ++ more) rest' (a || b)
Wrote-trans {s} {t} {u} {out} {more} {a} {b} p q = record {
  taken = q.taken ∙ rw p.taken (append_assoc _ out more);
  left = q.left;
  whole = q.whole ∙ p.whole;
  count = omega (arith, p.count, q.count, length-append out more);
  behind = q.behind;
  flag = ground (arith, p.flag, q.flag);
}

step_single :
    (s : FixState) (c : ℕ) (rest : Bytes)
    → s.j ≤ s.i
    → drop s.i s.buffer ≡ c ∷ rest
    → is_pair c ≡ false
    → (c == 0x8f) ≡ false
    → Wrote s (fix_step s) (c ∷ []) rest false
unfolding fix_step
step_single s c rest h e p q =
    rw (get_or-drop s.i s.buffer 0 e, p, q)
      (record {
        taken = take-set s.j s.buffer c (omega (arith, length-of_drop s.i s.buffer rest e));
        left = drop-set_of_lt s.j (suc s.i) s.buffer c (omega arith) ∙ drop-tail s.i s.buffer e;
        whole = length-set s.buffer s.j c;
        count = omega arith;
        behind = omega arith;
        flag = ground arith;
      })

-- The two writes do not reach the bytes that are still to be read.
drop-two_sets :
    (n j : ℕ) (xs : Bytes) (u v : ℕ) → suc j < n → drop n (set (set xs j u) (suc j) v) ≡ drop n xs
drop-two_sets n j xs u v h =
    drop-set_of_lt (suc j) n (set xs j u) v h ∙ drop-set_of_lt j n xs u (omega arith)

not_pair : (c : ℕ) → (c == 0x8f) ≡ true → is_pair c ≡ false
unfolding is_pair
not_pair c h = ground arith

step_pair :
    (s : FixState) (c d : ℕ) (rest : Bytes)
    → s.j ≤ s.i
    → drop s.i s.buffer ≡ c ∷ d ∷ rest
    → is_pair c ≡ true
    → Wrote s (fix_step s) (fix_pair c ∷ d ∷ []) rest (is_fixed_pair c)
unfolding fix_step
step_pair s c d rest h e p =
    let after : drop (suc s.i) s.buffer ≡ d ∷ rest = drop-tail s.i s.buffer e in
    let next : get_or (set s.buffer s.j (fix_pair c)) (suc s.i) 0 ≡ d =
      get_or-drop (suc s.i) (set s.buffer s.j (fix_pair c)) 0
        (drop-set_of_lt s.j (suc s.i) s.buffer (fix_pair c) (omega arith) ∙ after) in
    rw (get_or-drop s.i s.buffer 0 e, p, next)
      (record {
        taken =
            take-set_two s.j s.buffer (fix_pair c) d
              (omega (arith, length-of_drop s.i s.buffer (d ∷ rest) e));
        left =
            drop-two_sets (suc (suc s.i)) s.j s.buffer (fix_pair c) d (omega arith)
            ∙ drop-tail (suc s.i) s.buffer after;
        whole =
            length-set (set s.buffer s.j (fix_pair c)) (suc s.j) d
            ∙ length-set s.buffer s.j (fix_pair c);
        count = omega arith;
        behind = omega arith;
        flag = refl;
      })

step_triple :
    (s : FixState) (c d : ℕ) (rest : Bytes)
    → s.j ≤ s.i
    → drop s.i s.buffer ≡ c ∷ d ∷ rest
    → (c == 0x8f) ≡ true
    → Wrote s (fix_step s) (0xa2 ∷ 0xae ∷ []) (drop 1 rest) true
unfolding fix_step
step_triple s c d rest h e p =
    rw (get_or-drop s.i s.buffer 0 e, not_pair c p, p)
      (record {
        taken =
            take-set_two s.j s.buffer 0xa2 0xae
              (omega (arith, length-of_drop s.i s.buffer (d ∷ rest) e));
        left =
            drop-two_sets (suc (suc (suc s.i))) s.j s.buffer 0xa2 0xae (omega arith)
            ∙ drop-suc (suc (suc s.i)) s.buffer
            ∙ ap (drop 1) (drop-tail (suc s.i) s.buffer (drop-tail s.i s.buffer e));
        whole = length-set (set s.buffer s.j 0xa2) (suc s.j) 0xae ∙ length-set s.buffer s.j 0xa2;
        count = omega arith;
        behind = omega arith;
        flag = ground arith;
      })

fix_loop_more :
    (n len : ℕ) (s : FixState) → s.i < len → fix_loop (suc n) len s ≡ fix_loop n len (fix_step s)
unfolding fix_loop
fix_loop_more n len s h = ground arith

fix_loop_done : (n len : ℕ) (s : FixState) → len ≤ s.i → fix_loop n len s ≡ s
unfolding fix_loop
fix_loop_done zero len s h = refl
fix_loop_done (suc n) len s h = ground arith

-- Where nothing is left to read, the loop has ended.
Wrote-done :
    {s t : FixState} {out : Bytes} {b : Bool} (n len : ℕ)
    → length s.buffer ≡ suc len
    → Wrote s t out [] b
    → Wrote s (fix_loop n len t) out [] b
Wrote-done {t} n len whole w =
    rw (fix_loop_done n len t (omega (arith, w.whole, ap length w.left, length-drop t.i t.buffer)))
      w

more :
    {len : ℕ} (n : ℕ) (s : FixState) (rest : Bytes) {c : ℕ}
    → length s.buffer ≡ suc len
    → drop s.i s.buffer ≡ c ∷ rest
    → 0 < length rest
    → fix_loop (suc n) len s ≡ fix_loop n len (fix_step s)
more {len} n s rest whole e h =
    fix_loop_more n len s (omega (arith, length-of_drop s.i s.buffer rest e))

-- The loop reads the text up to the terminator, or past it where the last character is cut short.
pub fix_loop_writes :
    (n len : ℕ) (s : FixState) {text out : Bytes} {change cut : Bool}
    → Repairs text out change cut
    → length text ≤ n
    → length s.buffer ≡ suc len
    → s.j ≤ s.i
    → drop s.i s.buffer ≡ text ++ 0 ∷ []
    → (rest : Bytes) × Wrote s (fix_loop n len s) out rest change
fix_loop_writes n len s done fuel whole h e =
    let ends = length-of_drop s.i s.buffer [] e in
    (
      0 ∷ [],
      rw (fix_loop_done n len s (omega arith)) (record {
        taken = sym (append-nil _);
        left = e;
        whole = refl;
        count = omega arith;
        behind = h;
        flag = ground arith;
      }),
    )
fix_loop_writes zero len s (single p q r) fuel whole h e = absurd (omega arith)
fix_loop_writes (suc n) len s (single {c = c} {text = text} p q r) fuel whole h e =
    let w = step_single s c (text ++ 0 ∷ []) h e p q in
    let (rest, v) =
      fix_loop_writes n len (fix_step s) r (omega arith) (w.whole ∙ whole) w.behind w.left in
    (
      rest,
      rw (more n s (text ++ 0 ∷ []) whole e (omega (arith, length-append text (0 ∷ []))))
          (Wrote-trans w v),
    )
fix_loop_writes zero len s (pair p r) fuel whole h e = absurd (omega arith)
fix_loop_writes (suc n) len s (pair {c = c} {d = d} {text = text} p r) fuel whole h e =
    let w = step_pair s c d (text ++ 0 ∷ []) h e p in
    let (rest, v) =
      fix_loop_writes n len (fix_step s) r (omega arith) (w.whole ∙ whole) w.behind w.left in
    (rest, rw (more n s (d ∷ text ++ 0 ∷ []) whole e (omega arith)) (Wrote-trans w v))
fix_loop_writes zero len s (pair_cut p) fuel whole h e = absurd (omega arith)
fix_loop_writes (suc n) len s (pair_cut {c = c} p) fuel whole h e = (
  [],
  rw (more n s (0 ∷ []) whole e (omega arith)) (Wrote-done n len whole (step_pair s c 0 [] h e p)),
)
fix_loop_writes zero len s (triple p r) fuel whole h e = absurd (omega arith)
fix_loop_writes (suc n) len s (triple {c = c} {d = d} {e = x} {text = text} p r) fuel whole h e =
    let w = step_triple s c d (x ∷ text ++ 0 ∷ []) h e p in
    let (rest, v) =
      fix_loop_writes n len (fix_step s) r (omega arith) (w.whole ∙ whole) w.behind w.left in
    (rest, rw (more n s (d ∷ x ∷ text ++ 0 ∷ []) whole e (omega arith)) (Wrote-trans w v))
fix_loop_writes zero len s (triple_cut_one p) fuel whole h e = absurd (omega arith)
fix_loop_writes (suc n) len s (triple_cut_one {c = c} p) fuel whole h e = (
  [],
  rw (more n s (0 ∷ []) whole e (omega arith))
      (Wrote-done n len whole (step_triple s c 0 [] h e p)),
)
fix_loop_writes zero len s (triple_cut_two p) fuel whole h e = absurd (omega arith)
fix_loop_writes (suc n) len s (triple_cut_two {c = c} {d = d} p) fuel whole h e = (
  [],
  rw (more n s (d ∷ 0 ∷ []) whole e (omega arith))
      (Wrote-done n len whole (step_triple s c d (0 ∷ []) h e p)),
)
