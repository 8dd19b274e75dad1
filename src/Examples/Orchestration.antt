-- ===== src/Examples/Orchestration.antt =====
-- A run that is built, tested and reviewed.
use project_process_map.Base.{◌≡◌, refl, true, false, some, inr}
use project_process_map.Base.Results.{ok}
use project_process_map.Base.Text.{text}
use project_process_map.Orchestration.{
  building, testing, ready_for_review, reviewing, blocked, state_named, base_transitions,
  is_evidence_gated_state, is_pause_state, is_privileged_state, can_transition, validate_transition,
}
use project_process_map.Orchestration.Transitions.{is_permitted, validate_iff, Run, here, next}

test_building : can_transition building testing ≡ true
unfolding can_transition base_transitions is_privileged_state is_pause_state
test_building = refl

offer_tested : can_transition testing ready_for_review ≡ true
unfolding can_transition base_transitions is_privileged_state is_pause_state
offer_tested = refl

review_offered : can_transition ready_for_review reviewing ≡ true
unfolding can_transition base_transitions is_privileged_state is_pause_state
review_offered = refl

building_unprivileged : is_privileged_state building ≡ false
unfolding is_privileged_state
building_unprivileged = refl

blocked_pauses : is_pause_state blocked ≡ true
unfolding is_pause_state
blocked_pauses = refl

testing_is_open : is_evidence_gated_state testing ≡ false
unfolding is_evidence_gated_state
testing_is_open = refl

building_named : state_named (text "BUILDING") ≡ some building
unfolding state_named
building_named = refl

testing_named : state_named (text "TESTING") ≡ some testing
unfolding state_named
testing_named = refl

abbrev reviewed : Run building reviewing
reviewed = next (next (next here test_building) offer_tested) review_offered

validate_iff_example : validate_transition (text "BUILDING") (text "TESTING") false ≡ ok tt
validate_iff_example = (validate_iff (text "BUILDING") (text "TESTING") false).1 (
    is_permitted building testing building_named testing_named test_building
      (inr (inr testing_is_open)))
