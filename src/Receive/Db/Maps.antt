-- ===== src/Receive/Db/Maps.antt =====
-- RealworkMap stays sorted by number, so that no two of its records have one number.
use others.Base.{
  ◌≡◌, inl, inr, arith, refl, true, false, not, ◌&&◌, List, [], ◌∷◌, none, some, Bytes, is_empty,
  if◌then◌else◌, Bool-cases,
}
use others.Base.Int.{ℤ}
use others.Receive.Db.{RealworkRecord, RealworkMap, less, same, map_insert, map_find, load}
use others.Receive.Db.Rows.{IsDistinct, IsDated}

module _ (number : Bytes → ℤ) where
  abbrev pub IsBelow : RealworkRecord → RealworkMap → Type 0
  IsBelow r [] = true ≡ true
  IsBelow r (x ∷ m) = (less number r x ≡ true) × IsBelow r m

  abbrev pub IsSorted : RealworkMap → Type 0
  IsSorted [] = true ≡ true
  IsSorted (x ∷ m) = IsBelow x m × IsSorted m

  IsBelow-trans :
      (a b : RealworkRecord) (m : RealworkMap) → less number a b ≡ true → IsBelow b m → IsBelow a m
  IsBelow-trans a b [] l h = refl
  IsBelow-trans a b (x ∷ m) l h = (ground arith, IsBelow-trans a b m l h.1)

  map_insert-IsBelow :
      (a r : RealworkRecord) (m : RealworkMap)
      → less number a r ≡ true
      → IsBelow a m
      → IsBelow a (map_insert number r m)
  unfolding map_insert
  map_insert-IsBelow a r [] l h = (l, refl)
  map_insert-IsBelow a r (x ∷ m) l h =
      let rest = map_insert-IsBelow a r m l h.1 in
      elim (Bool-cases (less number r x)) [
        | inl e ↦ rw e (l, h)
        | inr e ↦ elim (Bool-cases (less number x r)) [
          | inl f ↦ rw (e, f) (h.0, rest)
          | inr f ↦ rw (e, f) (h.0, h.1)
        ]
      ]

  -- m.insert keeps a sorted map sorted.
  pub map_insert-IsSorted :
      (r : RealworkRecord) (m : RealworkMap) → IsSorted m → IsSorted (map_insert number r m)
  unfolding map_insert
  map_insert-IsSorted r [] h = (refl, refl)
  map_insert-IsSorted r (x ∷ m) h =
      let rest = map_insert-IsSorted r m h.1 in
      elim (Bool-cases (less number r x)) [
        | inl e ↦ rw e ((e, IsBelow-trans r x m e h.0), h)
        | inr e ↦ elim (Bool-cases (less number x r)) [
          | inl f ↦ rw (e, f) (map_insert-IsBelow x r m f h.0, rest)
          | inr f ↦ rw (e, f) h
        ]
      ]

  below-missing : (a : RealworkRecord) (m : RealworkMap) → IsBelow a m → map_find number a m ≡ none
  unfolding map_find same
  below-missing a [] h = refl
  below-missing a (x ∷ m) h = ground (arith, below-missing a m h.1)

  pub IsSorted-IsDistinct : (m : RealworkMap) → IsSorted m → IsDistinct number m
  IsSorted-IsDistinct [] h = refl
  IsSorted-IsDistinct (x ∷ m) h = (below-missing x m h.0, IsSorted-IsDistinct m h.1)

  pub load-IsSorted :
      (rows : List RealworkRecord) (m : RealworkMap) → IsSorted m → IsSorted (load number rows m)
  unfolding load
  load-IsSorted [] m h = h
  load-IsSorted (r ∷ rows) m h =
      load-IsSorted rows (map_insert number r m) (map_insert-IsSorted r m h)

  pub map_insert-IsDated :
      (r : RealworkRecord) (m : RealworkMap)
      → is_empty r.s_date && not (is_empty r.e_date) ≡ false
      → IsDated number m
      → IsDated number (map_insert number r m)
  unfolding map_insert
  map_insert-IsDated r [] d h = (d, refl)
  map_insert-IsDated r (x ∷ m) d h =
      let rest = map_insert-IsDated r m d h.1 in
      elim (Bool-cases (less number r x)) [
        | inl e ↦ rw e (d, h)
        | inr e ↦ elim (Bool-cases (less number x r)) [
          | inl f ↦ rw (e, f) (h.0, rest)
          | inr f ↦ rw (e, f) h
        ]
      ]

  same_trans : (a b c : RealworkRecord) → same number a b ≡ true → same number a c ≡ same number b c
  unfolding same
  same_trans a b c h = ground arith

  same_sym : (a b : RealworkRecord) → same number a b ≡ same number b a
  unfolding same
  same_sym a b = ground arith

  less-same : (a b : RealworkRecord) → less number a b ≡ true → same number a b ≡ false
  unfolding same
  less-same a b h = ground arith

  not_less-same :
      (a b : RealworkRecord)
      → less number a b ≡ false
      → less number b a ≡ false
      → same number a b ≡ true
  unfolding same
  not_less-same a b h g = ground arith

  -- What m.find gives on a sorted map after m.insert: for the number of `r` the record that was
  -- there, or else `r`, and for any other number what it gave before.
  pub find-map_insert :
      (k r : RealworkRecord) (m : RealworkMap)
      → IsSorted m
      → map_find number k (map_insert number r m) ≡ (
          if same number k r
          then elim (map_find number r m) [ some x ↦ some x | none ↦ some r ]
          else map_find number k m)
  unfolding map_insert map_find
  find-map_insert k r [] h = ground arith
  find-map_insert k r (x ∷ m) h =
      let rest = find-map_insert k r m h.1 in
      let via_k = same_trans k r x in
      let via_x = same_trans k x r in
      let turned = same_sym x r in
      elim (Bool-cases (less number r x)) [
        | inl e ↦
            let gone = below-missing r m (IsBelow-trans r x m e h.0) in
            let apart = less-same r x e in ground arith
        | inr e ↦ elim (Bool-cases (less number x r)) [
          | inl f ↦ let apart = less-same x r f in ground arith
          | inr f ↦ let one = not_less-same r x e f in ground arith
        ]
      ]
