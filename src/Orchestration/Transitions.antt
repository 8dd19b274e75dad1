-- ===== src/Orchestration/Transitions.antt =====
-- What the transitions of an orchestrated run can and cannot do.
use project_process_map.Base.{
  ◌≡◌, ◌≢◌, ◌⊎◌, ◌↔◌, inl, inr, refl, Bool, true, false, Option, none, some, ◌==◌, Bool-cases,
  arith, eq_of, eq_refl, subst, ◌∙◌,
}
use project_process_map.Base.Results.{ok, ◌>>=◌, or_throw}
use project_process_map.Base.Text.{Text}
use project_process_map.Orchestration.{
  CindyState, reconciling, testing, ready_for_review, reviewing, state_eq, state_named,
  base_transitions, is_evidence_gated_state, is_pause_state, is_privileged_state, can_transition,
  unknown_source_state, unknown_target_state, validate_states, validate_transition,
}

-- The strings name two states, which are equal, or a transition leads from one to the other and
-- either evidence is at hand or the target needs none.
pub data IsPermitted (source target : Text) (evidence : Bool) : Type 0 where
  is_permitted :
      (s t : CindyState)
      → state_named source ≡ some s
      → state_named target ≡ some t
      → can_transition s t ≡ true
      → (s ≡ t) ⊎ ((evidence ≡ true) ⊎ (is_evidence_gated_state t ≡ false))
      → IsPermitted source target evidence

validate_states_iff :
    (s t : CindyState) (evidence : Bool)
    → (validate_states s t evidence ≡ ok tt) ↔ (
        (can_transition s t ≡ true)
        × ((s ≡ t) ⊎ ((evidence ≡ true) ⊎ (is_evidence_gated_state t ≡ false))))
unfolding validate_states can_transition
validate_states_iff s t evidence = (there, back)
  where
    there :
        validate_states s t evidence ≡ ok tt
        → (can_transition s t ≡ true)
          × ((s ≡ t) ⊎ ((evidence ≡ true) ⊎ (is_evidence_gated_state t ≡ false)))
    there h = elim (Bool-cases (s == t)) [
      | inl same ↦ (rw same refl, inl (eq_of s t same))
      | inr differ ↦ elim (Bool-cases evidence) [
        | inl given ↦ (ground arith, inr (inl given))
        | inr missing ↦ (ground arith, inr (inr (ground arith)))
      ]
    ]

    back :
        (can_transition s t ≡ true)
          × ((s ≡ t) ⊎ ((evidence ≡ true) ⊎ (is_evidence_gated_state t ≡ false)))
        → validate_states s t evidence ≡ ok tt
    back (can, inl same) = let e : (s == t) ≡ true = rw same (eq_refl t) in rw e refl
    back (can, inr (inl given)) = ground arith
    back (can, inr (inr free)) = ground arith

-- The validator lets a transition between two strings through exactly when both name states, the transition table allows it, and the states are equal, evidence is at hand or the target needs none.
pub validate_iff :
    (source target : Text) (evidence : Bool)
    → (validate_transition source target evidence ≡ ok tt) ↔ IsPermitted source target evidence
unfolding validate_transition
validate_iff source target evidence =
    (there (state_named source) (state_named target) refl refl, back)
  where
    there :
        (s t : Option CindyState)
        → state_named source ≡ s
        → state_named target ≡ t
        → (do
          from_state ← or_throw s unknown_source_state
          to_state ← or_throw t unknown_target_state
          validate_states from_state to_state evidence)
          ≡ ok tt
        → IsPermitted source target evidence
    there none t e f h = absurd (let never : ⊥ = cc in never)
    there (some s) none e f h = absurd (let never : ⊥ = cc in never)
    there (some s) (some t) e f h =
        let (can, gate) = (validate_states_iff s t evidence).0 h in is_permitted s t e f can gate

    back : IsPermitted source target evidence → validate_transition source target evidence ≡ ok tt
    back (is_permitted s t e f can gate) =
        rw e (rw f ((validate_states_iff s t evidence).1 (can, gate)))

-- A run is a sequence of transitions that the table allows.
pub data Run (s : CindyState) : CindyState → Type 0 where
  here : Run s s
  next : {t u : CindyState} → Run s t → can_transition t u ≡ true → Run s u

can_transition-unprivileged :
    (s t : CindyState)
    → can_transition s t ≡ true
    → is_privileged_state s ≡ false
    → is_privileged_state t ≡ false
unfolding can_transition
can_transition-unprivileged s t h k = elim (Bool-cases (s == t)) [
  | inl same ↦ subst (λ x. is_privileged_state x ≡ false) (eq_of s t same) k
  | inr differ ↦ ground arith
]

-- Transitions never lead into a privileged state from outside of these.
privileged_sealed :
    {s t : CindyState} → Run s t → is_privileged_state s ≡ false → is_privileged_state t ≡ false
privileged_sealed here h = h
privileged_sealed (next {t} {u} r e) h = can_transition-unprivileged t u e (privileged_sealed r h)

can_transition-paused :
    (s t : CindyState) → can_transition s t ≡ true → is_pause_state s ≡ true → s ≡ t
unfolding can_transition
can_transition-paused s t h k = elim (Bool-cases (s == t)) [
  | inl same ↦ eq_of s t same
  | inr differ ↦ absurd (let never : ⊥ = ground arith in never)
]

-- No run of transitions leaves a pause state.
pause_stays : {s t : CindyState} → Run s t → is_pause_state s ≡ true → s ≡ t
pause_stays here h = refl
pause_stays {s} (next {t} {u} r e) h =
    let stay = pause_stays r h in
    stay ∙ can_transition-paused t u e (subst (λ x. is_pause_state x ≡ true) stay h)

-- A run that passes a state.
pub data HasPassed (s u : CindyState) (via : CindyState) : Type 0 where
  has_passed : Run s via → Run via u → HasPassed s u via

into_review :
    (s t : CindyState)
    → can_transition s t ≡ true
    → (t ≡ reviewing) ⊎ (t ≡ ready_for_review)
    → (s ≡ reconciling) ⊎ ((s ≡ testing) ⊎ ((s ≡ reviewing) ⊎ (s ≡ ready_for_review)))
unfolding can_transition is_pause_state base_transitions
into_review s t h k = ground arith

into_reconciling :
    (s t : CindyState) → can_transition s t ≡ true → t ≡ reconciling → s ≡ reconciling
unfolding can_transition is_pause_state base_transitions
into_reconciling s t h k = ground arith

no_way_back : {s t : CindyState} → Run s t → t ≡ reconciling → s ≡ reconciling
no_way_back here h = h
no_way_back (next {t} {u} r e) h = no_way_back r (into_reconciling t u e h)

prolong :
    {s t u via : CindyState} → HasPassed s t via → can_transition t u ≡ true → HasPassed s u via
prolong (has_passed before onward) e = has_passed before (next onward e)

-- A run that starts neither while reconciling nor in a state of review comes to a state of review only by way of testing.
review_after_testing :
    {s t : CindyState}
    → Run s t
    → s ≢ reconciling
    → s ≢ reviewing
    → s ≢ ready_for_review
    → (t ≡ reviewing) ⊎ (t ≡ ready_for_review)
    → HasPassed s t testing
review_after_testing here p q r (inl e) = absurd (q e)
review_after_testing here p q r (inr e) = absurd (r e)
review_after_testing {s} (next {t} {u} run e) p q r goal = elim (into_review t u e goal) [
  | inl before ↦ absurd (p (no_way_back run before))
  | inr (inl tested) ↦
      has_passed (subst (Run s) tested run) (subst (λ x. Run x u) tested (next here e))
  | inr (inr review) ↦ prolong (review_after_testing run p q r review) e
]
