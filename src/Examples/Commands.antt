-- ===== src/Examples/Commands.antt =====
-- The acceptance of a task, against a state with the task, its submission and two members.
use project_process_map.Base.{◌≡◌, ◌≢◌, ◌⊎◌, refl, true, false, none, some, [], ◌∷◌}
use project_process_map.Base.Results.{ok, err}
use project_process_map.Base.Order.{sort_by, insert_by}
use project_process_map.Base.Tables.{put}
use project_process_map.Base.Text.{Text, text}
use project_process_map.Events.{digits, event_topic}
use project_process_map.Events.Registry.{
  lower_unit, normalized_key, is_forbidden, assert_no_sensitive_fields, get_event_schema,
  registered_schemas, is_reserved, check_required, check_known, check_payload,
  validate_event_against_schema,
}
use project_process_map.Projects.{
  Principal, user, ProjectMembership, project_manager, ProjectNode, stage, is_node_leader,
}
use project_process_map.Security.Access.{active}
use project_process_map.Store.{Directory, list_recoverable}
use project_process_map.Access.{
  can_access_project_object, by_migrations, relevant_migrations, owner_allows,
  can_access_project_object_during_migration, assert_project_security_stable,
}
use project_process_map.Tasks.{accept_task, task_lifecycle}
use project_process_map.TaskCommands.{
  ActOnTaskCommand, action_capability, normalized_note, validate, assert_authorized, last_cycle,
  find_submitted, latest_submitted, review_record, answer, apply_action,
}
use project_process_map.TaskCommands.View.{to_task_view}
use project_process_map.TaskCommands.Messages.{event_type, task_event, outbox_for, append_event}
use project_process_map.TaskCommands.Execution.{
  Payload, ActOnTaskResult, ExecutionError, payload_of, authorize, check_candidate,
  check_assignment, write, perform, answer_by, act, execute,
}
use project_process_map.TaskCommands.Commits.{committed}
use project_process_map.TaskCommands.Replay.{IsReplay, IsCommit}
use project_process_map.TaskCommands.Retries.{execute-cases, execute-again, execute-key_reused}
use project_process_map.TaskCommands.Journal.{IsConsistent, here, next, run-IsConsistent}
use project_process_map.Memory.{
  MemoryState, key_of, transaction, assert_tenant, receipts_get, receipts_insert, sequences_current,
  sequences_next, events_append, outbox_enqueue,
}
use project_process_map.Memory.Tasks.{
  tasks_get, save_preserving_security_ownership, review_action_key, append_review_action,
  list_review_actions,
}
use project_process_map.Examples.Clock.{clock, noon, evening, text_tests}
use project_process_map.Examples.TaskCommands.{task, submission, command, done, acceptance}

abbrev pub bob : Principal
bob = record {
  tenant_id = text "t";
  id = text "bob";
  kind = user;
  status = active;
  version = 1;
  created_at_utc = noon;
  updated_at_utc = noon;
}

abbrev pub membership : ProjectMembership
membership = record {
  tenant_id = text "t";
  project_id = text "p";
  principal_id = text "bob";
  role = project_manager;
  status = active;
  security_domain_ids = [];
  version = 1;
  created_at_utc = noon;
  updated_at_utc = noon;
}

abbrev pub node : ProjectNode
node = record {
  tenant_id = text "t";
  id = text "n";
  project_id = text "p";
  parent_id = none;
  leader_principal_id = none;
  title = text "root";
  kind = stage;
  status = none;
  completed_at_utc = none;
  completed_by_principal_id = none;
  security_domain_id = none;
  security_epoch = 1;
  version = 1;
  deleted_at_utc = none;
}

abbrev pub directory : Directory
directory = record {
  principals = (text "bob", bob) ∷ [];
  nodes = (text "n", node) ∷ [];
  memberships = λ project principal. some membership;
  security_domains = λ id. none;
  security_grants = λ id principal. none;
  security_migrations = [];
}

abbrev pub state : MemoryState
state = record {
  directory = λ tenant_id. directory;
  tasks = (key_of (text "t") (text "task-1"), task) ∷ [];
  review_actions = (review_action_key (text "t") submission, submission) ∷ [];
  receipts = [];
  sequences = [];
  events = [];
  aggregate_versions = [];
  project_event_sequences = [];
  outbox = [];
  jobs = [];
  job_dedupe = [];
}

-- A hash for the tests.
abbrev hash : Payload → Text
hash p = elim p.note [ none ↦ [] | some note ↦ note ]

abbrev after : MemoryState
after = committed state command (text "good") task (submission ∷ []) done

abbrev answered : ActOnTaskResult
answered = record {
  value = to_task_view done.updated (submission ∷ acceptance ∷ []);
  replayed = false;
}

accepted : execute clock hash noon command state ≡ (ok answered, after)
unfolding execute transaction act validate authorize check_assignment check_candidate answer_by
    perform write append_event task_event outbox_for event_type event_topic assert_tenant
    receipts_get receipts_insert sequences_current sequences_next events_append outbox_enqueue
    tasks_get save_preserving_security_ownership append_review_action list_review_actions sort_by
    insert_by can_access_project_object_during_migration by_migrations relevant_migrations
    owner_allows can_access_project_object assert_project_security_stable list_recoverable
    is_node_leader assert_authorized action_capability apply_action answer latest_submitted
    find_submitted last_cycle review_record normalized_note accept_task task_lifecycle to_task_view
    text_tests put digits lower_unit normalized_key is_forbidden assert_no_sensitive_fields
    get_event_schema registered_schemas is_reserved check_required check_known check_payload
    validate_event_against_schema
accepted = refl

execute-cases_example :
    ((e : ExecutionError) × (execute clock hash noon command state ≡ (err e, state)))
    ⊎ (((r : ActOnTaskResult) × (execute clock hash noon command state ≡ (ok r, state))
          × IsReplay hash command state r state)
        ⊎ ((r : ActOnTaskResult) × (t : MemoryState) × (execute clock hash noon command state
              ≡ (ok r, t))
            × IsCommit hash command state r t))
execute-cases_example = execute-cases clock hash noon command state

execute-again_example :
    execute clock hash noon command after
    ≡ (ok (record { value = answered.value; replayed = true }), after)
execute-again_example = execute-again clock hash noon command state after answered accepted

-- The same key for another note.
abbrev other : ActOnTaskCommand
other = record command { note = some (text "bad") }

differ : hash (payload_of other) ≢ hash (payload_of command)
unfolding normalized_note text_tests
differ h = let never : ⊥ = cc in never

execute-key_reused_example :
    (e : ExecutionError) × (execute clock hash evening other after ≡ (err e, after))
execute-key_reused_example =
    execute-key_reused clock hash noon evening command other state after answered accepted refl refl
      differ

empty-IsConsistent : IsConsistent state
empty-IsConsistent = record {
  numbered = λ key e found. let never : ⊥ = cc in absurd never;
  backed = λ key m found. let never : ⊥ = cc in absurd never;
}

run-IsConsistent_example :
    IsConsistent (execute clock hash evening other (execute clock hash noon command state).1).1
run-IsConsistent_example =
    run-IsConsistent clock hash state _ empty-IsConsistent
      (next evening other (next noon command here))
