-- ===== src/Common/Trace/Lines.antt =====
-- Which lines each log gets from the traces.
use others.Base.{
  ◌≡◌, inl, inr, refl, sym, ap, ◌∙◌, subst, Bool, true, false, ◌&&◌, if◌then◌else◌, List, [], ◌∷◌,
  Option, none, some, Bytes, bytes_eq, bytes_eq→eq, Bool-cases,
}
use others.Common.Log.{RtwLog, log_all}
use others.Common.Trace.{
  Level, RtwTrace, Logging, lookup, put, write_to, trace_message, trace_messages,
}

-- A log after more lines.
abbrev pub after : List Bytes → Option RtwLog → Option RtwLog
after ms none = none
after ms (some v) = some (log_all ms v)

abbrev pub goes_to : Bytes → RtwTrace → Bool
goes_to name t = t.enable && elim t.p_log [ none ↦ false | some k ↦ bytes_eq name k ]

-- The messages of the traces that are on and set to the log of a name.
unfoldable pub lines_for : Bytes → (Level → RtwTrace) → List (Level × Bytes) → List Bytes
lines_for name f [] = []
lines_for name f ((l, m) ∷ ms) =
    let rest = lines_for name f ms in if goes_to name (f l) then m ∷ rest else rest

lookup-write_to_same :
    (k m : Bytes) (logs : List (Bytes × RtwLog))
    → lookup k (write_to k m logs) ≡ after (m ∷ []) (lookup k logs)
unfolding lookup write_to log_all
lookup-write_to_same k m [] = refl
lookup-write_to_same k m ((j, v) ∷ logs) = elim (Bool-cases (bytes_eq k j)) [
  | inl t ↦ rw (t, t) refl
  | inr t ↦ rw (t, t) (lookup-write_to_same k m logs)
]

lookup-write_to_other :
    (name k m : Bytes) (logs : List (Bytes × RtwLog))
    → bytes_eq name k ≡ false
    → lookup name (write_to k m logs) ≡ lookup name logs
unfolding lookup write_to
lookup-write_to_other name k m [] h = refl
lookup-write_to_other name k m ((j, v) ∷ logs) h = elim (Bool-cases (bytes_eq k j)) [
  | inl t ↦
      let h' : bytes_eq name j ≡ false =
        subst (λ i. bytes_eq name i ≡ false) (bytes_eq→eq k j t) h in
      rw (t, h') refl
  | inr t ↦ rw (t, lookup-write_to_other name k m logs h) refl
]

lookup-put :
    (name : Bytes) (b : Bool) (o : Option Bytes) (m : Bytes) (s : Logging)
    → lookup name (if b then put o m s else s).log_map ≡ (
        if goes_to name (record { enable = b; p_log = o })
        then after (m ∷ []) (lookup name s.log_map)
        else lookup name s.log_map)
lookup-put name false o m s = refl
lookup-put name true none m s = refl
lookup-put name true (some k) m s = elim (Bool-cases (bytes_eq name k)) [
  | inl t ↦
      let e = lookup-write_to_same k m s.log_map in
      rw t (
        subst (λ i. lookup i (write_to k m s.log_map) ≡ after (m ∷ []) (lookup i s.log_map))
          (sym (bytes_eq→eq name k t)) e)
  | inr t ↦ rw t (lookup-write_to_other name k m s.log_map t)
]

put-trace_of :
    (b : Bool) (o : Option Bytes) (m : Bytes) (s : Logging)
    → (if b then put o m s else s).trace_of ≡ s.trace_of
put-trace_of false o m s = refl
put-trace_of true none m s = refl
put-trace_of true (some k) m s = refl

after-nil : (o : Option RtwLog) → after [] o ≡ o
unfolding log_all
after-nil none = refl
after-nil (some v) = refl

after-if :
    (b : Bool) (m : Bytes) (ms : List Bytes) (o : Option RtwLog)
    → after ms (if b then after (m ∷ []) o else o) ≡ after (if b then m ∷ ms else ms) o
unfolding log_all
after-if false m ms o = refl
after-if true m ms none = refl
after-if true m ms (some v) = refl

-- Each log gets, in their order, just the messages of the traces that are on and set to it.
pub trace_messages-lookup :
    (name : Bytes) (ms : List (Level × Bytes)) (s : Logging)
    → lookup name (trace_messages ms s).log_map
      ≡ after (lines_for name s.trace_of ms) (lookup name s.log_map)
unfolding trace_messages lines_for trace_message
trace_messages-lookup name [] s = sym (after-nil (lookup name s.log_map))
trace_messages-lookup name ((l, m) ∷ ms) s =
    let t = s.trace_of l in
    let s' = trace_message l m s in
    trace_messages-lookup name ms s'
    ∙ ap (λ f. after (lines_for name f ms) (lookup name s'.log_map))
        (put-trace_of t.enable t.p_log m s)
    ∙ ap (after (lines_for name s.trace_of ms)) (lookup-put name t.enable t.p_log m s)
    ∙ after-if (goes_to name t) m (lines_for name s.trace_of ms) (lookup name s.log_map)
