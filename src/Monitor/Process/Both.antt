-- ===== src/Monitor/Process/Both.antt =====
-- The two processes do not disturb each other in the loop of ProcessWatcher::Run.
use others.Base.{
  ◌≡◌, ◌≢◌, refl, ap, ◌∙◌, arith, inl, inr, List, [], ◌∷◌, ◌++◌, map, none, Option-cases,
}
use others.Monitor.Process.{
  Status, Poll, Watched, get_process_status, alarm, watch, Process, recv, refl_, tag, watch_both,
}

-- The alarms about one process.
unfoldable pub about : Process → List (Process × Status) → List Status
about p [] = []
about recv ((recv, s) ∷ told) = s ∷ about recv told
about recv ((refl_, s) ∷ told) = about recv told
about refl_ ((recv, s) ∷ told) = about refl_ told
about refl_ ((refl_, s) ∷ told) = s ∷ about refl_ told

about-recv :
    (xs : List Status) (rest : List (Process × Status))
    → about recv (tag recv xs ++ rest) ≡ xs ++ about recv rest
unfolding about tag
about-recv [] rest = refl
about-recv (x ∷ xs) rest = ap (λ t. x ∷ t) (about-recv xs rest)

about-recv_other :
    (xs : List Status) (rest : List (Process × Status))
    → about recv (tag refl_ xs ++ rest) ≡ about recv rest
unfolding about tag
about-recv_other [] rest = refl
about-recv_other (x ∷ xs) rest = about-recv_other xs rest

about_refl :
    (xs : List Status) (rest : List (Process × Status))
    → about refl_ (tag refl_ xs ++ rest) ≡ xs ++ about refl_ rest
unfolding about tag
about_refl [] rest = refl
about_refl (x ∷ xs) rest = ap (λ t. x ∷ t) (about_refl xs rest)

about-refl_other :
    (xs : List Status) (rest : List (Process × Status))
    → about refl_ (tag recv xs ++ rest) ≡ about refl_ rest
unfolding about tag
about-refl_other [] rest = refl
about-refl_other (x ∷ xs) rest = about-refl_other xs rest

-- The polls can always tell the process id.
abbrev pub AllSeen : List Poll → Type 0
AllSeen [] = Unit {0}
AllSeen (p ∷ ps) = (p.pid ≢ none) × AllSeen ps

abbrev pub of_recv : Poll × Poll → Poll
of_recv p = p.0

abbrev pub of_refl : Poll × Poll → Poll
of_refl p = p.1

seen : (p : Poll) (w : Watched) → p.pid ≢ none → (get_process_status p w).1 ≢ none
unfolding get_process_status
seen p w h e = elim (Option-cases p.pid) [
  | inl gone ↦ h gone
  | inr (n, there) ↦ ground (arith, rw (there, get_process_status) at e)
]

-- As long as both processes can be looked at, the alarms about each of them are those that its own
-- polls give, as if it were watched alone.
pub watch_both-alone :
    (ps : List (Poll × Poll)) (w v : Watched) (old old' : Status)
    → AllSeen (map of_recv ps)
    → AllSeen (map of_refl ps)
    → let told = (watch_both ps w v old old').0 in
      (about recv told ≡ (watch (map of_recv ps) w old).0)
      × (about refl_ told ≡ (watch (map of_refl ps) v old').0)
unfolding watch_both watch about
watch_both-alone [] w v old old' h g = (refl, refl)
watch_both-alone (p ∷ ps) w v old old' (h, hs) (g, gs) =
    elim (Option-cases (get_process_status p.0 w).1) [
      | inl gone ↦ absurd (seen p.0 w h gone)
      | inr (new, there) ↦ elim (Option-cases (get_process_status p.1 v).1) [
        | inl gone ↦ absurd (seen p.1 v g gone)
        | inr (new', there') ↦
            let a = get_process_status p.0 w in
            let b = get_process_status p.1 v in
            let (first, second) = watch_both-alone ps a.0 b.0 new new' hs gs in
            let rest = (watch_both ps a.0 b.0 new new').0 in
            let mine = alarm old new in
            let other = alarm old' new' in
            rw (there, there', watch_both, watch)
              (
                about-recv mine (tag refl_ other ++ rest)
                    ∙ ap (λ t. mine ++ t) (about-recv_other other rest ∙ first),
                about-refl_other mine (tag refl_ other ++ rest)
                    ∙ (about_refl other rest ∙ ap (λ t. other ++ t) second),
              )
      ]
    ]
