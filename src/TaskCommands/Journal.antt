-- ===== src/TaskCommands/Journal.antt =====
-- The event log and the outbox over runs of commands on tasks
-- (packages/application/src/tasks/act-on-task.ts).
use project_process_map.Base.{
  ℕ, ◌+◌, ◌≤◌, ◌<◌, ◌≡◌, refl, sym, ap, ◌∙◌, ◌⊎◌, inl, inr, none, some, List, Bool-cases, ◌==◌,
  subst, arith, not_true,
}
use project_process_map.Base.Equality.{list_eq, nat_eq, eq_of}
use project_process_map.Base.Results.{Result, ok, err}
use project_process_map.Base.Dates.{DateApi}
use project_process_map.Base.Tables.{get, put, get-put_self, get-put_other}
use project_process_map.Base.Text.{Text}
use project_process_map.Events.{DomainEvent, OutboxMessage}
use project_process_map.Tasks.{ProductTask}
use project_process_map.TaskCommands.{ActOnTaskCommand, TaskReviewActionRecord, Applied}
use project_process_map.TaskCommands.Messages.{task_event, outbox_for}
use project_process_map.TaskCommands.Execution.{
  Payload, ActOnTaskResult, ExecutionError, execute, payload_of,
}
use project_process_map.TaskCommands.Commits.{committed, event_of}
use project_process_map.TaskCommands.Replay.{IsCommit}
use project_process_map.TaskCommands.Retries.{execute-error, execute-outcome}
use project_process_map.Memory.{MemoryState, key_of, event_key, sequences_current, or_zero}
use project_process_map.Memory.Tasks.{list_review_actions}

-- Every event of the log has a number, which its project has given; and the event of every message
-- of the outbox is in the log.
pub record IsConsistent (s : MemoryState) : Type 0 where
  pub numbered :
      (key : Text) (e : DomainEvent)
      → get s.events key ≡ some e
      → (0 < e.project_sequence)
        × (e.project_sequence ≤ sequences_current e.tenant_id s e.project_id)
  pub backed :
      (key : Text) (m : OutboxMessage)
      → get s.outbox key ≡ some m
      → (get s.events (event_key m.tenant_id m.payload) ≡ some m.payload)
        × (m.event_id ≡ m.payload.event_id)

-- A counter that goes up leaves no other behind.
counter_up :
    (table : List (Text × ℕ)) (key other : Text)
    → or_zero (get table other) ≤ or_zero (get (put table key (or_zero (get table key) + 1)) other)
counter_up table key other = elim (Bool-cases (key == other)) [
  | inl same ↦
      let e = eq_of key other same in
      let now : get (put table key (or_zero (get table key) + 1)) other
          ≡ some (or_zero (get table other) + 1) =
        subst
          (λ k.
            get (put table key (or_zero (get table key) + 1)) k ≡ some (or_zero (get table k) + 1))
          e (get-put_self table key (or_zero (get table key) + 1)) in
      rw now (omega arith)
  | inr differ ↦
      rw (get-put_other table key other (or_zero (get table key) + 1) differ) (omega arith)
]

-- An entry stays when another is put under a new key.
old_entry :
    {V : Type 0} (table : List (Text × V)) (key other : Text) (new : V) {old : V}
    → get table key ≡ none
    → get table other ≡ some old
    → get (put table key new) other ≡ some old
old_entry table key other new fresh found =
    get-put_other table key other new (
      not_true (key == other) (λ p.
        let same = eq_of key other p in
        let both : none ≡ get table other = sym fresh ∙ ap (get table) same in
        let never : ⊥ = cc in never))
    ∙ found

-- What is found after an entry is put: it, or what was there.
entry-cases :
    {V : Type 0} (table : List (Text × V)) (key other : Text) (new found : V)
    → get (put table key new) other ≡ some found
    → (found ≡ new) ⊎ (get table other ≡ some found)
entry-cases table key other new found h = elim (Bool-cases (key == other)) [
  | inl same ↦
      let here : get (put table key new) other ≡ some new =
        ap (get (put table key new)) (sym (eq_of key other same)) ∙ get-put_self table key new in
      inl (cc)
  | inr differ ↦ inr (sym (get-put_other table key other new differ) ∙ h)
]

module _ (hash : Payload → Text) (c : ActOnTaskCommand) (s t : MemoryState)
    (r : ActOnTaskResult) where
  -- The event that a new command adds to the log is later than all the events of its project.
  commit_newest :
      (new : IsCommit hash c s r t) (key : Text) (old : DomainEvent)
      → IsConsistent s
      → get s.events key ≡ some old
      → old.tenant_id ≡ c.tenant_id
      → old.project_id ≡ new.applied.updated.project_id
      → old.project_sequence < (event_of s c new.applied).project_sequence
  unfolding task_event
  commit_newest new key old consistent found tenant project =
      let (_, below) = consistent.numbered key old found in
      let counter : sequences_current old.tenant_id s old.project_id
          ≡ sequences_current c.tenant_id s new.applied.updated.project_id =
        rw tenant (rw project refl) in
      omega arith

module _ (s : MemoryState) (c : ActOnTaskCommand) (fingerprint : Text) (task : ProductTask)
    (actions : List TaskReviewActionRecord) (applied : Applied) where
  after : MemoryState
  after = committed s c fingerprint task actions applied

  counted :
      (tenant_id project_id : Text)
      → sequences_current tenant_id s project_id ≤ sequences_current tenant_id after project_id
  unfolding task_event sequences_current after
  counted tenant_id project_id =
      counter_up s.sequences (key_of c.tenant_id applied.updated.project_id)
        (key_of tenant_id project_id)

  event_counted :
      let e = event_of s c applied in
      sequences_current e.tenant_id after e.project_id ≡ e.project_sequence
  unfolding task_event sequences_current after
  event_counted =
      ap or_zero (get-put_self s.sequences (key_of c.tenant_id applied.updated.project_id) _)

  positive : 0 < (event_of s c applied).project_sequence
  unfolding task_event
  positive = omega arith

  committed-numbered :
      IsConsistent s
      → (key : Text) (e : DomainEvent) → get after.events key ≡ some e
      → (0 < e.project_sequence)
        × (e.project_sequence ≤ sequences_current e.tenant_id after e.project_id)
  unfolding after
  committed-numbered consistent key e found =
      let now = event_of s c applied in
      elim (entry-cases s.events (event_key c.tenant_id now) key now e found) [
        | inl same ↦
            let exact : sequences_current e.tenant_id after e.project_id ≡ e.project_sequence =
              subst (λ x. sequences_current x.tenant_id after x.project_id ≡ x.project_sequence)
                (sym same) event_counted in
            let above : 0 < e.project_sequence =
              subst (λ x. 0 < x.project_sequence) (sym same) positive in
            (above, omega arith)
        | inr old ↦
            let (above, below) = consistent.numbered key e old in
            let more = counted e.tenant_id e.project_id in (above, omega arith)
      ]

  committed-backed :
      IsConsistent s
      → get s.events (event_key c.tenant_id (event_of s c applied)) ≡ none
      → (key : Text) (m : OutboxMessage) → get after.outbox key ≡ some m
      → (get after.events (event_key m.tenant_id m.payload) ≡ some m.payload)
        × (m.event_id ≡ m.payload.event_id)
  unfolding after task_event outbox_for
  committed-backed consistent unlogged key m found =
      let now = event_of s c applied in
      elim (entry-cases s.outbox (key_of c.tenant_id (outbox_for now).id) key (outbox_for now) m
        found) [
          | inl same ↦ (
            subst (λ x. get after.events (event_key x.tenant_id x.payload) ≡ some x.payload)
                (sym same) (get-put_self s.events (event_key c.tenant_id now) now),
            subst (λ x. x.event_id ≡ x.payload.event_id) (sym same) refl,
          )
          | inr old ↦
              let (there, id) = consistent.backed key m old in
              (
                old_entry s.events (event_key c.tenant_id now) (event_key m.tenant_id m.payload) now
                    unlogged there,
                id,
              )
        ]

  committed-IsConsistent :
      IsConsistent s
      → get s.events (event_key c.tenant_id (event_of s c applied)) ≡ none
      → IsConsistent (committed s c fingerprint task actions applied)
  unfolding after
  committed-IsConsistent consistent unlogged = record {
    numbered = committed-numbered consistent;
    backed = committed-backed consistent unlogged;
  }

-- Commands on tasks one after the other, some of which fail.
pub data Run (d : DateApi) (hash : Payload → Text) (s : MemoryState) : MemoryState → Type 0 where
  here : Run d hash s s
  next :
      {t : MemoryState} (at_utc : Text) (c : ActOnTaskCommand)
      → Run d hash s t
      → Run d hash s (execute d hash at_utc c t).1

execute-IsConsistent :
    (d : DateApi) (hash : Payload → Text) (at_utc : Text) (c : ActOnTaskCommand) (s : MemoryState)
    → IsConsistent s
    → IsConsistent (execute d hash at_utc c s).1
execute-IsConsistent d hash at_utc c s consistent = by_result (execute d hash at_utc c s) refl
  where
    by_result :
        (x : Result ExecutionError ActOnTaskResult × MemoryState)
        → execute d hash at_utc c s ≡ x
        → IsConsistent x.1
    by_result (err e, t) h =
        subst IsConsistent (sym (execute-error d hash at_utc c s t e h)) consistent
    by_result (ok r, t) h = elim (execute-outcome d hash at_utc c s t r h) [
      | inl old ↦ subst IsConsistent (sym old.kept) consistent
      | inr new ↦ subst IsConsistent (sym new.written) (
          committed-IsConsistent s c (hash (payload_of c)) new.task
            (list_review_actions c.tenant_id s new.task.id) new.applied consistent new.unlogged)
    ]

-- From a consistent state, any run of commands on tasks leads to a consistent one: every event of
-- the log has a number that its project has given out, and the outbox announces only events that
-- are in the log.
pub run-IsConsistent :
    (d : DateApi) (hash : Payload → Text) (s t : MemoryState)
    → IsConsistent s
    → Run d hash s t
    → IsConsistent t
run-IsConsistent d hash s t consistent here = consistent
run-IsConsistent d hash s t consistent (next at_utc c r) =
    execute-IsConsistent d hash at_utc c _ (run-IsConsistent d hash s _ consistent r)
