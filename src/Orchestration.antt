-- ===== src/Orchestration.antt =====
-- tools/cindy/state-machine.ts, with the privileged states of tools/cindy/types.ts: the states of
-- an orchestrated run and which transitions are let through. A string that names no state is
-- rejected first.
pub mod Transitions
use project_process_map.Base.{
  ℕ, zero, suc, ◌≡◌, refl, Bool, true, false, not, ◌&&◌, ◌||◌, Option, none, some, List, [], ◌∷◌,
  ◌++◌, ◌==◌, if◌then◌else◌, Eq, arith, sym, ap, ◌∙◌,
}
use project_process_map.Base.Equality.{enum_eq, list_eq, nat_eq}
use project_process_map.Base.Results.{Result, ok, ◌>>=◌, ◌>>◌, throw_if, or_throw}
use project_process_map.Base.Sets.{contains}
use project_process_map.Base.Text.{Text, text}

pub data CindyState : Type 0 where
  reconciling task_initialized ready_for_builder building builder_complete testing : CindyState
  ready_for_review reviewing final_gate ready_to_commit committing pushing closed : CindyState
  next_task_selected repair_initialized repair_building : CindyState
  product_decision_required blocked contract_conflict dirty_tree_unexplained : CindyState
  git_safety_stop migration_or_security_ambiguity : CindyState

abbrev pub state_rank : CindyState → ℕ
state_rank reconciling = 0
state_rank task_initialized = 1
state_rank ready_for_builder = 2
state_rank building = 3
state_rank builder_complete = 4
state_rank testing = 5
state_rank ready_for_review = 6
state_rank reviewing = 7
state_rank final_gate = 8
state_rank ready_to_commit = 9
state_rank committing = 10
state_rank pushing = 11
state_rank closed = 12
state_rank next_task_selected = 13
state_rank repair_initialized = 14
state_rank repair_building = 15
state_rank product_decision_required = 16
state_rank blocked = 17
state_rank contract_conflict = 18
state_rank dirty_tree_unexplained = 19
state_rank git_safety_stop = 20
state_rank migration_or_security_ambiguity = 21

-- `Object.values(CindyState)`
abbrev pub all_states : List CindyState
all_states =
    reconciling ∷ task_initialized ∷ ready_for_builder ∷ building ∷ builder_complete ∷ testing
    ∷ ready_for_review ∷ reviewing ∷ final_gate ∷ ready_to_commit ∷ committing ∷ pushing ∷ closed
    ∷ next_task_selected ∷ repair_initialized ∷ repair_building ∷ product_decision_required
    ∷ blocked ∷ contract_conflict ∷ dirty_tree_unexplained ∷ git_safety_stop
    ∷ migration_or_security_ambiguity ∷ []

abbrev state_at : List CindyState → ℕ → CindyState
state_at [] n = reconciling
state_at (state ∷ states) zero = state
state_at (state ∷ states) (suc n) = state_at states n

state_at_rank : (s : CindyState) → state_at all_states (state_rank s) ≡ s
state_at_rank s = ground arith

pub state_rank_injective : (s t : CindyState) → state_rank s ≡ state_rank t → s ≡ t
state_rank_injective s t h = sym (state_at_rank s) ∙ ap (state_at all_states) h ∙ state_at_rank t

instance abbrev pub state_eq : Eq CindyState
state_eq = enum_eq state_rank state_rank_injective

-- The string of a state.
abbrev pub state_name : CindyState → Text
state_name reconciling = text "RECONCILING"
state_name task_initialized = text "TASK_INITIALIZED"
state_name ready_for_builder = text "READY_FOR_BUILDER"
state_name building = text "BUILDING"
state_name builder_complete = text "BUILDER_COMPLETE"
state_name testing = text "TESTING"
state_name ready_for_review = text "READY_FOR_REVIEW"
state_name reviewing = text "REVIEWING"
state_name final_gate = text "FINAL_GATE"
state_name ready_to_commit = text "READY_TO_COMMIT"
state_name committing = text "COMMITTING"
state_name pushing = text "PUSHING"
state_name closed = text "CLOSED"
state_name next_task_selected = text "NEXT_TASK_SELECTED"
state_name repair_initialized = text "REPAIR_INITIALIZED"
state_name repair_building = text "REPAIR_BUILDING"
state_name product_decision_required = text "PRODUCT_DECISION_REQUIRED"
state_name blocked = text "BLOCKED"
state_name contract_conflict = text "CONTRACT_CONFLICT"
state_name dirty_tree_unexplained = text "DIRTY_TREE_UNEXPLAINED"
state_name git_safety_stop = text "GIT_SAFETY_STOP"
state_name migration_or_security_ambiguity = text "MIGRATION_OR_SECURITY_AMBIGUITY"

abbrev state_among : List CindyState → Text → Option CindyState
state_among [] s = none
state_among (state ∷ states) s = if state_name state == s then some state else state_among states s

-- The state that a string is, if it is one (`isValidCindyState`).
unfoldable pub state_named : Text → Option CindyState
state_named s = state_among all_states s

abbrev pub pause_states : List CindyState
pause_states =
    product_decision_required ∷ blocked ∷ contract_conflict ∷ dirty_tree_unexplained
    ∷ git_safety_stop ∷ migration_or_security_ambiguity ∷ []

unfoldable pub base_transitions : CindyState → List CindyState
base_transitions reconciling =
    task_initialized ∷ ready_for_builder ∷ building ∷ builder_complete ∷ testing ∷ ready_for_review
    ∷ reviewing ∷ repair_initialized ∷ repair_building ∷ []
base_transitions task_initialized = ready_for_builder ∷ []
base_transitions ready_for_builder = building ∷ []
base_transitions building = builder_complete ∷ testing ∷ []
base_transitions builder_complete = testing ∷ []
base_transitions testing = ready_for_review ∷ []
base_transitions ready_for_review = reviewing ∷ []
base_transitions reviewing = repair_initialized ∷ []
base_transitions repair_initialized = repair_building ∷ []
base_transitions repair_building = testing ∷ []
base_transitions _ = []

abbrev pub evidence_gated_states : List CindyState
evidence_gated_states = ready_for_review ∷ reviewing ∷ final_gate ∷ ready_to_commit ∷ closed ∷ []

abbrev pub privileged_states : List CindyState
privileged_states =
    final_gate ∷ ready_to_commit ∷ committing ∷ pushing ∷ closed ∷ next_task_selected ∷ []

unfoldable pub is_evidence_gated_state : CindyState → Bool
is_evidence_gated_state state = contains evidence_gated_states state

unfoldable pub is_pause_state : CindyState → Bool
is_pause_state state = contains pause_states state

unfoldable pub is_privileged_state : CindyState → Bool
is_privileged_state state = contains privileged_states state

unfoldable pub can_transition : (source target : CindyState) → Bool
can_transition source target =
    if source == target
    then true
    else if is_privileged_state target
    then false
    else if is_pause_state source
    then false
    else if is_pause_state target
    then true
    else contains (base_transitions source) target

pub data TransitionRejectedError : Type 0 where
  unknown_source_state unknown_target_state sealed_privileged_state : TransitionRejectedError
  pause_reason_immutable must_resume_explicitly unverified_transition : TransitionRejectedError
  illegal_transition : TransitionRejectedError

-- The tests on two states.
unfoldable pub validate_states :
    (source target : CindyState)
    → (allow_evidence_gated : Bool) → Result TransitionRejectedError (Unit {0})
validate_states source target allow_evidence_gated = if source == target then ok tt else (do
  throw_if (is_privileged_state target) sealed_privileged_state
  throw_if (is_pause_state source && is_pause_state target) pause_reason_immutable
  throw_if (is_pause_state source) must_resume_explicitly
  throw_if (not allow_evidence_gated && is_evidence_gated_state target) unverified_transition
  throw_if (not (can_transition source target)) illegal_transition)

-- A flag that is left out is false.
unfoldable pub validate_transition :
    (source target : Text)
    → (allow_evidence_gated : Bool) → Result TransitionRejectedError (Unit {0})
validate_transition source target allow_evidence_gated = do
  from_state ← or_throw (state_named source) unknown_source_state
  to_state ← or_throw (state_named target) unknown_target_state
  validate_states from_state to_state allow_evidence_gated
