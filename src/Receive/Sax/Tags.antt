-- ===== src/Receive/Sax/Tags.antt =====
-- What one record leaves for the next one.
use others.Base.{
  ◌≡◌, ◌⊎◌, inl, inr, arith, refl, sym, ap, ◌∙◌, subst, true, List, [], ◌∷◌, none, Bytes,
}
use others.Common.Conf.{lookup}
use others.Receive.Sax.{
  Fields, remove, head_tags, record_tags, Got, missing, got, get_heads, get_records, insert_record,
  Handler, end_equip_info,
}

lookup-remove : (t u : Bytes) (m : Fields) → lookup t m ≡ none → lookup t (remove u m) ≡ none
unfolding lookup remove
lookup-remove t u [] h = refl
lookup-remove t u (f ∷ m) h = ground (arith, lookup-remove t u m)

remove-gone : (t : Bytes) (m : Fields) → lookup t (remove t m) ≡ none
unfolding lookup remove
remove-gone t [] = refl
remove-gone t (f ∷ m) = ground (arith, remove-gone t m)

abbrev pub AllGone : List Bytes → Fields → Type 0
AllGone [] m = true ≡ true
AllGone (t ∷ ts) m = (lookup t m ≡ none) × AllGone ts m

Got-cases : {A : Type 0} (g : Got A) → ((t : Bytes) × (g ≡ missing t)) ⊎ ((a : A) × (g ≡ got a))
Got-cases (missing t) = inl (t, refl)
Got-cases (got a) = inr (a, refl)

get_records-cons :
    (u : Bytes) (ts : List Bytes) (m : Fields) (r : Fields × Fields)
    → get_records (u ∷ ts) m ≡ got r
    → (r' : Fields × Fields) × (get_records ts (remove u m) ≡ got r') × (r.1 ≡ r'.1)
unfolding get_records
get_records-cons u ts m r h = elim (Got-cases (get_records ts (remove u m))) [
  | inl (t, e) ↦ ground arith
  | inr (r', e) ↦ (r', e, ground arith)
]

get_records-nil : (m : Fields) (r : Fields × Fields) → get_records [] m ≡ got r → r.1 ≡ m
unfolding get_records
get_records-nil m r h = ground arith

get_records-keeps_gone :
    (ts : List Bytes) (m : Fields) (t : Bytes) (r : Fields × Fields)
    → get_records ts m ≡ got r
    → lookup t m ≡ none
    → lookup t r.1 ≡ none
get_records-keeps_gone [] m t r h n = ap (lookup t) (get_records-nil m r h) ∙ n
get_records-keeps_gone (u ∷ ts) m t r h n =
    let (r', e, f) = get_records-cons u ts m r h in
    ap (lookup t) f ∙ get_records-keeps_gone ts (remove u m) t r' e (lookup-remove t u m n)

get_records-gone :
    (ts : List Bytes) (m : Fields) (r : Fields × Fields) → get_records ts m ≡ got r → AllGone ts r.1
get_records-gone [] m r h = refl
get_records-gone (t ∷ ts) m r h =
    let (r', e, f) = get_records-cons t ts m r h in
    (
      ap (lookup t) f ∙ get_records-keeps_gone ts (remove t m) t r' e (remove-gone t m),
      subst (AllGone ts) (sym f) (get_records-gone ts (remove t m) r' e),
    )

insert_record-map :
    (h h' : Handler) (heads : Got Fields) (g : Got (Fields × Fields))
    → insert_record h heads g ≡ got h'
    → (r : Fields × Fields) × (g ≡ got r) × (h'.cur_record ≡ r.1)
unfolding insert_record
insert_record-map h h' (missing t) g e = ground arith
insert_record-map h h' (got heads) (missing t) e = ground arith
insert_record-map h h' (got heads) (got r) e = (r, refl, ground arith)

end_equip_info-map :
    (h h' : Handler)
    → end_equip_info h ≡ got h'
    → (r : Fields × Fields) × (get_records record_tags h.cur_record ≡ got r) × (h'.cur_record ≡ r.1)
unfolding end_equip_info
end_equip_info-map h h' e =
    insert_record-map h h' (get_heads head_tags h.cur_record) (get_records record_tags h.cur_record)
      e

-- Where the end of an equipInfo makes a record, the ten elements of its own are gone from the map,
-- so that the next record does not find them there.
pub end_equip_info-gone :
    (h h' : Handler) → end_equip_info h ≡ got h' → AllGone record_tags h'.cur_record
end_equip_info-gone h h' e =
    let (r, f, g) = end_equip_info-map h h' e in
    subst (AllGone record_tags) (sym g) (get_records-gone record_tags h.cur_record r f)
