-- ===== src/Receive/Node/Shape.antt =====
-- The shape of what is made from a construction record.
use others.Base.{
  ℕ, suc, zero, ◌+◌, ◌≤◌, ◌<◌, ◌≡◌, inl, inr, arith, refl, sym, subst, ap, ◌∙◌, Bool, true, false,
  ◌||◌, List, [], ◌∷◌, ◌++◌, length, length-append, length-take, length-drop, take, drop, none,
  some, Bytes, codes, bytes_eq, bytes_eq→eq, Bool-cases, substr,
}
use others.Base.Int.{ℤ}
use others.Receive.Node.{
  substr_at, change_time_format, is_space, take_word, first_word, CstNode, node, below_bts, level,
  sub_length, is_type, get_config_ne_type, make_node_id, get_cst_node_id, new_node,
}

length-substr : (s : Bytes) (i n : ℕ) → i + n ≤ length s → length (substr s i n) ≡ n
length-substr s i n h = let t = length-take n (drop i s) in let d = length-drop i s in omega arith

substr_at-inside : (s : Bytes) (i n : ℕ) → i ≤ length s → substr_at s i n ≡ some (substr s i n)
unfolding substr_at
substr_at-inside s i n h = ground arith

abbrev dated : Bytes → Bytes → Bytes → Bytes → Bytes → Bytes → Bytes
dated a b c d e f =
    a ++ codes "/" ++ b ++ codes "/" ++ c ++ codes " " ++ d ++ codes ":" ++ e ++ codes ":" ++ f

length-dated :
    (a b c d e f : Bytes)
    → length (dated a b c d e f)
      ≡ 5 + length a + length b + length c + length d + length e + length f
length-dated a b c d e f = grind (arith, length-append)

-- A date of fourteen or more characters is written with nineteen.
pub change_time_format-length :
    (t : Bytes) → 14 ≤ length t → (r : Bytes) × (change_time_format t ≡ some r) × (length r ≡ 19)
unfolding change_time_format
change_time_format-length [] h = ground arith
change_time_format-length (x ∷ xs) h =
    let t = x ∷ xs in
    let a = length-substr t 0 4 (omega arith) in
    let b = length-substr t 4 2 (omega arith) in
    let c = length-substr t 6 2 (omega arith) in
    let d = length-substr t 8 2 (omega arith) in
    let e = length-substr t 10 2 (omega arith) in
    let f = length-substr t 12 2 (omega arith) in
    let l =
      length-dated (substr t 0 4) (substr t 4 2) (substr t 6 2) (substr t 8 2) (substr t 10 2)
        (substr t 12 2) in
    (
      dated (substr t 0 4) (substr t 4 2) (substr t 6 2) (substr t 8 2) (substr t 10 2)
          (substr t 12 2),
      rw
          (
            substr_at-inside t 0 4 (omega arith),
            substr_at-inside t 4 2 (omega arith),
            substr_at-inside t 6 2 (omega arith),
            substr_at-inside t 8 2 (omega arith),
            substr_at-inside t 10 2 (omega arith),
            substr_at-inside t 12 2 (omega arith),
          )
          refl,
      omega arith,
    )

-- A date of one to eleven characters throws.
pub change_time_format-short :
    (t : Bytes) → 0 < length t → length t < 12 → change_time_format t ≡ none
unfolding change_time_format substr_at
change_time_format-short [] g h = ground arith
change_time_format-short (c ∷ cs) g h = ground arith

-- No character that a stream takes for the end of a word.
abbrev pub IsWord : Bytes → Type 0
IsWord [] = true ≡ true
IsWord (c ∷ cs) = (is_space c ≡ false) × IsWord cs

append-IsWord : (a b : Bytes) → IsWord a → IsWord b → IsWord (a ++ b)
append-IsWord [] b h g = g
append-IsWord (c ∷ cs) b h g = (h.0, append-IsWord cs b h.1 g)

take-IsWord : (n : ℕ) (s : Bytes) → IsWord s → IsWord (take n s)
take-IsWord zero s h = refl
take-IsWord (suc n) [] h = refl
take-IsWord (suc n) (c ∷ cs) h = (h.0, take-IsWord n cs h.1)

drop-IsWord : (n : ℕ) (s : Bytes) → IsWord s → IsWord (drop n s)
drop-IsWord zero s h = h
drop-IsWord (suc n) [] h = refl
drop-IsWord (suc n) (c ∷ cs) h = drop-IsWord n cs h.1

take_word-whole : (s : Bytes) → IsWord s → take_word s ≡ s
unfolding take_word
take_word-whole [] h = refl
take_word-whole (c ∷ cs) h = rw (h.0, take_word-whole cs h.1) refl

first_word-whole : (s : Bytes) → IsWord s → first_word s ≡ s
unfolding first_word
first_word-whole [] h = refl
first_word-whole (c ∷ cs) h = rw h.0 (take_word-whole (c ∷ cs) h)

substr-IsWord : (s : Bytes) (i n : ℕ) → IsWord s → IsWord (substr s i n)
substr-IsWord s i n h = take-IsWord n (drop i s) (drop-IsWord i s h)

make_node_id-whole :
    (region ne_type serial_no sub : Bytes)
    → IsWord region
    → IsWord ne_type
    → IsWord serial_no
    → IsWord sub
    → make_node_id region ne_type serial_no sub
      ≡ codes "01000201" ++ (region ++ (codes "0000" ++ (ne_type ++ (serial_no ++ sub))))
unfolding make_node_id
make_node_id-whole region ne_type serial_no sub r n s b =
    let zeros =
      append-IsWord (codes "0000") (ne_type ++ (serial_no ++ sub))
        (refl, (refl, (refl, (refl, refl))))
        (append-IsWord ne_type (serial_no ++ sub) n (append-IsWord serial_no sub s b)) in
    first_word-whole _
      (refl, (refl, (refl, (refl, (refl, (refl, (refl, (refl, append-IsWord region _ r zeros))))))))

-- The types of a base station's part.
abbrev pub is_part : Bytes → Bool
is_part t = is_type t "0006" || is_type t "0010"

part-shape : (t : Bytes) → is_part t ≡ true → IsWord t × (length t ≡ 4) × (level t ≡ below_bts)
unfolding level
part-shape t h = elim (Bool-cases (is_type t "0006")) [
  | inl e ↦
      subst (λ t. IsWord t × (length t ≡ 4) × (level t ≡ below_bts))
        (sym (bytes_eq→eq t (codes "0006") e))
        ((refl, (refl, (refl, (refl, refl)))), refl, unfold bytes_eq in refl)
  | inr e ↦
      subst (λ t. IsWord t × (length t ≡ 4) × (level t ≡ below_bts))
        (sym (bytes_eq→eq t (codes "0010") (ground arith)))
        ((refl, (refl, (refl, (refl, refl)))), refl, unfold bytes_eq in refl)
]

length_parts :
    (a b c d : Bytes)
    → length (codes "01000201" ++ (a ++ (codes "0000" ++ (b ++ (c ++ d)))))
      ≡ 12 + length a + length b + length c + length d
length_parts a b c d =
    let l1 = length-append a (codes "0000" ++ (b ++ (c ++ d))) in
    let l2 = length-append b (c ++ d) in let l3 = length-append c d in omega arith

get_cst_node_id-36 :
    (n : CstNode)
    → is_part n.ne_type ≡ true
    → length n.node_id ≡ 36
    → (id : Bytes) × (get_cst_node_id n ≡ some id) × (length id ≡ 34)
unfolding get_cst_node_id
get_cst_node_id-36 n t l =
    let id = n.node_id in
    let a = substr id 0 16 in
    let b = substr id 34 2 in
    let c = substr id 28 6 in
    let la = length-substr id 0 16 (omega arith) in
    let lb = length-substr id 34 2 (omega arith) in
    let lc = length-substr id 28 6 (omega arith) in
    let l1 = length-append a (codes "0004") in
    let l2 = length-append (a ++ codes "0004") (codes "000000" ++ b) in
    let l3 = length-append ((a ++ codes "0004") ++ (codes "000000" ++ b)) c in
    (
      ((a ++ codes "0004") ++ (codes "000000" ++ b)) ++ c,
      rw
          (
            t,
            substr_at-inside id 0 16 (omega arith),
            substr_at-inside id 34 2 (omega arith),
            substr_at-inside id 28 6 (omega arith),
          )
          refl,
      omega arith,
    )

sum_36 :
    (x a b c d : ℕ)
    → x ≡ 12 + suc (suc a) + b + suc (suc (suc (suc c))) + d
    → a ≡ 2
    → b ≡ 4
    → c ≡ 4
    → d ≡ 8
    → x ≡ 36
sum_36 x a b c d h ea eb ec ed = omega arith

module _ (read_hex : Bytes → ℤ) (print_int : ℤ → Bytes) (number : Bytes → ℤ)
    (mktime : ℤ → ℤ → ℤ → ℤ → ℤ → ℤ → ℤ) (auto : Bytes) where
  new_node-parts :
      (conf : List (Bytes × Bytes)) (ne_id sub : Bytes) (n : CstNode)
      → new_node read_hex print_int number mktime auto conf ne_id sub ≡ node n
      → (length ne_id ≡ 16)
        × (length sub ≡ 16)
        × (n.ne_type ≡ get_config_ne_type conf (substr ne_id 10 2))
        × (n.node_id
            ≡ make_node_id
                (codes "00" ++ substr ne_id 0 2)
                n.ne_type
                (codes "0000" ++ substr ne_id 12 4)
                (substr sub 0 (sub_length (level n.ne_type))))
  unfolding new_node
  new_node-parts conf ne_id sub n h = ground arith

  -- For two ids without blanks that give a node of one of the two types of a base station's part,
  -- the node id has 36 characters, and the id for the database is cut out of it without an
  -- exception and has 34.
  pub get_cst_node_id-length :
      (conf : List (Bytes × Bytes)) (ne_id sub : Bytes) (n : CstNode)
      → IsWord ne_id
      → IsWord sub
      → new_node read_hex print_int number mktime auto conf ne_id sub ≡ node n
      → is_part n.ne_type ≡ true
      → (length n.node_id ≡ 36) × ((id : Bytes) × (get_cst_node_id n ≡ some id) × (length id ≡ 34))
  get_cst_node_id-length conf ne_id sub n w v h t =
      let (l, m, _, e) = new_node-parts conf ne_id sub n h in
      let (word, four, lev) = part-shape n.ne_type t in
      let region = codes "00" ++ substr ne_id 0 2 in
      let serial_no = codes "0000" ++ substr ne_id 12 4 in
      let whole =
        make_node_id-whole region n.ne_type serial_no (substr sub 0 8)
          (refl, (refl, substr-IsWord ne_id 0 2 w)) word
          (refl, (refl, (refl, (refl, substr-IsWord ne_id 12 4 w)))) (substr-IsWord sub 0 8 v) in
      let total = length_parts region n.ne_type serial_no (substr sub 0 8) in
      let r = length-substr ne_id 0 2 (omega arith) in
      let s = length-substr ne_id 12 4 (omega arith) in
      let b = length-substr sub 0 8 (omega arith) in
      let id =
        e
        ∙ ap (λ k. make_node_id region n.ne_type serial_no (substr sub 0 (sub_length k))) lev
        ∙ whole in
      let full = ap length id ∙ total in
      let len = sum_36 (length n.node_id) _ _ _ _ full r four s b in
      (len, get_cst_node_id-36 n t len)
