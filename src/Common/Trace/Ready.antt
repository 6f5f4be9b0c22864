-- ===== src/Common/Trace/Ready.antt =====
-- Where the traces point to and which logs there are after a list of INIT_TRACE.
use others.Base.{
  ℕ, ◌≡◌, ◌⊎◌, inl, inr, arith, refl, sym, ap, ◌∙◌, subst, Bool, true, false, ◌&&◌, if◌then◌else◌,
  List, [], ◌∷◌, ◌++◌, none, some, Bytes, bytes_eq, bytes_eq→eq, bytes_eq_refl, Bool-cases,
  Option-cases,
}
use others.Common.Log.{RtwLog}
use others.Common.Trace.{
  Level, RtwTrace, Logging, lookup, get_log, set_trace, init_trace, init_traces, check_with_mask,
  new_logging,
}
use others.Common.Trace.Lines.{goes_to}

lookup-append :
    (name k : Bytes) (v : RtwLog) (logs : List (Bytes × RtwLog))
    → lookup name (logs ++ (k, v) ∷ []) ≡ elim (lookup name logs) [
      | none ↦ if bytes_eq name k then some v else none
      | some w ↦ some w
    ]
unfolding lookup
lookup-append name k v [] = refl
lookup-append name k v ((j, w) ∷ logs) = elim (Bool-cases (bytes_eq name j)) [
  | inl t ↦ rw t refl
  | inr t ↦ rw t (lookup-append name k v logs)
]

-- The logs of a map were all opened with a size, and none has been written to.
abbrev pub IsFresh : (Bytes → ℕ → RtwLog) → ℕ → List (Bytes × RtwLog) → Type 0
IsFresh opened size logs =
    (name : Bytes) → (lookup name logs ≡ none) ⊎ (lookup name logs ≡ some (opened name size))

-- A level and a name stand in a list of INIT_TRACE.
pub data IsListed (l : Level) (name : Bytes) : List (Level × Bytes) → Type 0 where
  here : {ls : List (Level × Bytes)} → IsListed l name ((l, name) ∷ ls)
  there :
      {e : Level × Bytes} {ls : List (Level × Bytes)}
      → IsListed l name ls
      → IsListed l name (e ∷ ls)

IsListed-cases :
    (k : Level) (n : Bytes) (l : Level) (name : Bytes) (ls : List (Level × Bytes))
    → IsListed k n ((l, name) ∷ ls)
    → ((l ≡ k) × (name ≡ n)) ⊎ IsListed k n ls
IsListed-cases k n l name ls here = inl (refl, refl)
IsListed-cases k n l name ls (there c) = inr c

module _ (undefined : ℕ) (opened : Bytes → ℕ → RtwLog) where
  added-IsFresh :
      (k : Bytes) (size : ℕ) (logs : List (Bytes × RtwLog))
      → IsFresh opened size logs
      → IsFresh opened size (logs ++ (k, opened k size) ∷ [])
  added-IsFresh k size logs f name = rw (lookup-append name k (opened k size) logs) (elim (f name) [
    | inr g ↦ inr (rw g refl)
    | inl g ↦ elim (Bool-cases (bytes_eq name k)) [
      | inl t ↦ inr (rw (g, t) (ap (λ n. some (opened n size)) (sym (bytes_eq→eq name k t))))
      | inr t ↦ inl (rw (g, t) refl)
    ]
  ])

  -- How a trace stands after INIT_TRACE, from how it stood before.
  unfoldable pub set_up : ℕ → Level → Bytes → RtwTrace → RtwTrace
  set_up mask l name t =
      let on = check_with_mask undefined mask l in
      record { enable = on; p_log = if on then some name else t.p_log }

  unfoldable pub settings : ℕ → List (Level × Bytes) → (Level → RtwTrace) → Level → RtwTrace
  settings mask [] f = f
  settings mask ((l, name) ∷ ls) f = settings mask ls (set_trace l (set_up mask l name (f l)) f)

  abbrev pub state : (Level → RtwTrace) → ℕ → ℕ → List (Bytes × RtwLog) → Logging
  state f size mask logs = record {
    trace_of = f;
    log_map = logs;
    max_log_size = size;
    factory_mask = mask;
  }

  -- The logs after INIT_TRACE are fresh, have the logs from before, and the one of the trace.
  abbrev HasAdded : ℕ → ℕ → Level → Bytes → List (Bytes × RtwLog) → List (Bytes × RtwLog) → Type 0
  HasAdded size mask l name logs logs' =
      IsFresh opened size logs'
      × (check_with_mask undefined mask l ≡ true → lookup name logs' ≡ some (opened name size))
      × ((n : Bytes) (v : RtwLog) → lookup n logs ≡ some v → lookup n logs' ≡ some v)

  init_trace-HasAdded :
      (size mask : ℕ) (l : Level) (name : Bytes) (f : Level → RtwTrace)
      (logs : List (Bytes × RtwLog))
      → IsFresh opened size logs
      → (logs' : List (Bytes × RtwLog)) × (init_trace undefined opened l name
            (state f size mask logs)
          ≡ state (set_trace l (set_up mask l name (f l)) f) size mask logs')
        × HasAdded size mask l name logs logs'
  unfolding init_trace set_up get_log
  init_trace-HasAdded size mask l name f logs h =
      elim (Bool-cases (check_with_mask undefined mask l)) [
        | inr t ↦ (logs, rw t refl, (h, λ x. ground arith, λ n v e. e))
        | inl t ↦ elim (Option-cases (lookup name logs)) [
          | inl g ↦ (
            logs ++ (name, opened name size) ∷ [],
            rw (t, g, get_log) refl,
            (
              added-IsFresh name size logs h,
              λ x.
                  lookup-append name name (opened name size) logs ∙ rw (g, bytes_eq_refl name) refl,
              λ n v e. lookup-append n name (opened name size) logs ∙ rw e refl,
            ),
          )
          | inr (w, g) ↦ (
            logs,
            rw (t, g, get_log) refl,
            (
              h,
              λ x. elim (h name) [ inl none_ ↦ ground (arith, g, none_) | inr e ↦ e ],
              λ n v e. e,
            ),
          )
        ]
      ]

  -- After a list of INIT_TRACE.
  abbrev pub AllAdded :
      ℕ → ℕ → List (Level × Bytes) → List (Bytes × RtwLog) → List (Bytes × RtwLog) → Type 0
  AllAdded size mask ls logs logs' =
      ((l : Level) (name : Bytes)
        → IsListed l name ls
        → check_with_mask undefined mask l ≡ true
        → lookup name logs' ≡ some (opened name size))
      × ((n : Bytes) (v : RtwLog) → lookup n logs ≡ some v → lookup n logs' ≡ some v)

  pub init_traces-AllAdded :
      (size mask : ℕ) (ls : List (Level × Bytes)) (f : Level → RtwTrace)
      (logs : List (Bytes × RtwLog))
      → IsFresh opened size logs
      → (logs' : List (Bytes × RtwLog)) × (init_traces undefined opened ls (state f size mask logs)
          ≡ state (settings mask ls f) size mask logs')
        × AllAdded size mask ls logs logs'
  unfolding init_traces settings
  init_traces-AllAdded size mask [] f logs h = (logs, refl, (λ l name c x. elim c [ ], λ n v e. e))
  init_traces-AllAdded size mask ((l, name) ∷ ls) f logs h =
      let (logs1, e1, (fresh, added, kept)) = init_trace-HasAdded size mask l name f logs h in
      let f1 = set_trace l (set_up mask l name (f l)) f in
      let (logs2, e2, (all, kept2)) = init_traces-AllAdded size mask ls f1 logs1 fresh in
      (
        logs2,
        ap (init_traces undefined opened ls) e1 ∙ e2,
        (
          λ k n c x. elim (IsListed-cases k n l name ls c) [
            | inl (p, q) ↦
                let x' = subst (λ j. check_with_mask undefined mask j ≡ true) (sym p) x in
                kept2 n (opened n size)
                  (subst (λ j. lookup j logs1 ≡ some (opened j size)) q (added x'))
            | inr c' ↦ all k n c' x
          ],
          λ n v e. kept2 n v (kept n v e),
        ),
      )

pub goes_to-if :
    (b : Bool) (name n : Bytes)
    → goes_to name (record { enable = b; p_log = if b then some n else none })
      ≡ (b && bytes_eq name n)
goes_to-if false name n = refl
goes_to-if true name n = refl

-- The traces after their constructors.
abbrev pub first : ℕ → Level → RtwTrace
first undefined = (new_logging undefined).trace_of
