-- ===== src/TaskCommands/Retries.antt =====
-- `ActOnTaskHandler.execute` of packages/application/src/tasks/act-on-task.ts, as its callers see
-- it: all or nothing, and once for each idempotency key.
use project_process_map.Base.{
  ◌≡◌, ◌≢◌, refl, sym, ap, ◌∙◌, ◌⊎◌, inl, inr, Bool, true, none, some, eq_refl, Bool-cases, ◌==◌,
  subst, arith,
}
use project_process_map.Base.Equality.{list_eq, nat_eq, option_eq, eq_of}
use project_process_map.Base.Results.{Result, ok, err}
use project_process_map.Base.Dates.{DateApi}
use project_process_map.Base.Tables.{get, put, get-put_self, get-put_other}
use project_process_map.Base.Text.{Text}
use project_process_map.Tasks.{ProductTask}
use project_process_map.Tasks.Steps.{Keeps, Keeps-refl, Step-Keeps}
use project_process_map.TaskCommands.{ActOnTaskCommand, validate, assert_authorized}
use project_process_map.TaskCommands.Execution.{
  Payload, ActOnTaskResult, ExecutionError, scope_of, payload_of, authorize, check_assignment,
  answer_by, act, execute,
}
use project_process_map.TaskCommands.Commits.{apply-Step, receipt_of}
use project_process_map.TaskCommands.Replay.{
  authorized_again, authorize-Keeps, check_assignment-Keeps, act-ok, ok-act, IsReplay, IsCommit,
  answer-cases,
}
use project_process_map.Memory.{
  CommandReceipt, MemoryState, key_of, receipt_key, receipts_get, transaction,
}
use project_process_map.Memory.Tasks.{tasks_get, list_review_actions}

module _ (d : DateApi) (hash : Payload → Text) (at_utc : Text) (c : ActOnTaskCommand) where
  -- A command that throws leaves the state.
  pub execute-error :
      (s t : MemoryState) (e : ExecutionError) → execute d hash at_utc c s ≡ (err e, t) → t ≡ s
  unfolding execute transaction
  execute-error s t e h = ground arith

  pub execute-act :
      (s t : MemoryState) (r : ActOnTaskResult)
      → execute d hash at_utc c s ≡ (ok r, t)
      → (validate d c ≡ ok tt) × (act d hash at_utc c s ≡ ok (r, t))
  unfolding execute transaction
  execute-act s t r h = ground arith

  act-execute :
      (s t : MemoryState) (r : ActOnTaskResult)
      → validate d c ≡ ok tt
      → act d hash at_utc c s ≡ ok (r, t)
      → execute d hash at_utc c s ≡ (ok r, t)
  unfolding execute transaction
  act-execute s t r valid h = ground arith

  -- A command that answers is either a replay, or new.
  pub execute-outcome :
      (s t : MemoryState) (r : ActOnTaskResult)
      → execute d hash at_utc c s ≡ (ok r, t)
      → IsReplay hash c s r t ⊎ IsCommit hash c s r t
  execute-outcome s t r h =
      let (task, found, _, _, e) = act-ok d hash at_utc c s (execute-act s t r h).1 in
      answer-cases hash c s task (receipts_get c.tenant_id s (scope_of c)) r t found refl e

  -- A command ends in one of three ways: it throws and the state is as before; its key has a receipt
  -- of the same fingerprint, which is the answer, and the state is as before; or the key is new, the
  -- action was done on the version of the task that the client knew, and the state has the writes
  -- of the command (task, review, event with the next number, message, receipt) and no others.
  pub execute-cases :
      (s : MemoryState)
      → ((e : ExecutionError) × (execute d hash at_utc c s ≡ (err e, s)))
        ⊎ (((r : ActOnTaskResult) × (execute d hash at_utc c s ≡ (ok r, s)) × IsReplay hash c s r s)
            ⊎ ((r : ActOnTaskResult) × (t : MemoryState) × (execute d hash at_utc c s ≡ (ok r, t))
                × IsCommit hash c s r t))
  execute-cases s = by_result (execute d hash at_utc c s) refl
    where
      by_result :
          (x : Result ExecutionError ActOnTaskResult × MemoryState)
          → execute d hash at_utc c s ≡ x
          → ((e : ExecutionError) × (execute d hash at_utc c s ≡ (err e, s)))
            ⊎ (((r : ActOnTaskResult) × (execute d hash at_utc c s ≡ (ok r, s))
                  × IsReplay hash c s r s)
                ⊎ ((r : ActOnTaskResult) × (t : MemoryState) × (execute d hash at_utc c s
                      ≡ (ok r, t))
                    × IsCommit hash c s r t))
      by_result (err e, t) h = inl (e, h ∙ ap (λ t. (err e, t)) (execute-error s t e h))
      by_result (ok r, t) h = elim (execute-outcome s t r h) [
        | inl old ↦
            inr
              (inl (r, h ∙ ap (λ t. (ok r, t)) old.kept, subst (IsReplay hash c s r) old.kept old))
        | inr new ↦ inr (inr (r, t, h, new))
      ]

  -- The receipt after a command that answered.
  pub execute-receipt :
      (s t : MemoryState) (r : ActOnTaskResult)
      → execute d hash at_utc c s ≡ (ok r, t)
      → (receipt : CommandReceipt) × (receipts_get c.tenant_id t (scope_of c) ≡ some receipt)
        × (receipt.fingerprint ≡ hash (payload_of c))
        × (receipt.result ≡ r.value)
  unfolding receipts_get
  execute-receipt s t r h = elim (execute-outcome s t r h) [
    | inl old ↦ (
      old.receipt,
      ap (λ t. receipts_get c.tenant_id t (scope_of c)) old.kept ∙ old.filed,
      old.fingerprint,
      sym (ap (λ r. r.value) old.answer),
    )
    | inr new ↦
        let receipt =
          receipt_of c (hash (payload_of c)) (list_review_actions c.tenant_id s new.task.id)
            new.applied in
        (
          receipt,
          ap (λ t. receipts_get c.tenant_id t (scope_of c)) new.written
              ∙ get-put_self s.receipts (receipt_key c.tenant_id (scope_of c)) receipt,
          refl,
          sym (ap (λ r. r.value) new.answer),
        )
  ]

  -- The task that the key gives after the command: it has the place and the owner of the one
  -- before, and the same people may act on it.
  pub found_again :
      (s t : MemoryState) (r : ActOnTaskResult) (new : IsCommit hash c s r t)
      → (u : ProductTask) × (tasks_get c.tenant_id t c.task_id ≡ some u)
        × Keeps new.task u
        × ((manager : Bool)
            → assert_authorized u c.principal_id c.action manager
              ≡ assert_authorized new.task c.principal_id c.action manager)
  unfolding tasks_get
  found_again s t r new =
      let key = key_of c.tenant_id new.task.id in
      let wanted = key_of c.tenant_id c.task_id in
      let actions = list_review_actions c.tenant_id s new.task.id in
      let look : tasks_get c.tenant_id t c.task_id
          ≡ get (put s.tasks key new.applied.updated) wanted =
        ap (λ t. tasks_get c.tenant_id t c.task_id) new.written in
      elim (Bool-cases (key == wanted)) [
        | inl same ↦ (
          new.applied.updated,
          look
              ∙ ap (get (put s.tasks key new.applied.updated)) (sym (eq_of key wanted same))
              ∙ get-put_self s.tasks key new.applied.updated,
          Step-Keeps (apply-Step new.task actions c c.action new.applied new.done),
          λ manager.
              authorized_again new.task actions c c.action new.applied c.principal_id manager
                new.done,
        )
        | inr other ↦ (
          new.task,
          look ∙ get-put_other s.tasks key wanted new.applied.updated other ∙ new.found,
          Keeps-refl new.task,
          λ manager. refl,
        )
      ]

  answer_filed :
      (t : MemoryState) (u : ProductTask) (receipt : CommandReceipt)
      → receipt.fingerprint ≡ hash (payload_of c)
      → answer_by t c (hash (payload_of c)) u (some receipt)
        ≡ ok (record { value = receipt.result; replayed = true }, t)
  unfolding answer_by
  answer_filed t u receipt same = rw same (rw (eq_refl (hash (payload_of c))) refl)

  again_new :
      (s t : MemoryState) (r : ActOnTaskResult)
      → execute d hash at_utc c s ≡ (ok r, t)
      → IsCommit hash c s r t
      → execute d hash at_utc c t ≡ (ok (record { value = r.value; replayed = true }), t)
  again_new s t r h new =
      let (valid, acted) = execute-act s t r h in
      let (task, found, allowed, assigned, _) = act-ok d hash at_utc c s acted in
      let (u, found_u, keeps, who) = found_again s t r new in
      let (receipt, filed, fingerprint, value) = execute-receipt s t r h in
      let both : some task ≡ some new.task = sym found ∙ new.found in
      let same : task ≡ new.task = cc in
      let place : t.directory c.tenant_id ≡ s.directory c.tenant_id =
        ap (λ t. t.directory c.tenant_id) new.written in
      act-execute t t _ valid (
        ok-act d hash at_utc c t u found_u
          (ap (λ x. authorize d x at_utc c u) place
            ∙ authorize-Keeps d (s.directory c.tenant_id) at_utc c new.task u keeps who
            ∙ ap (authorize d (s.directory c.tenant_id) at_utc c) (sym same)
            ∙ allowed)
          (ap (λ x. check_assignment d x at_utc c c.action u) place
            ∙ check_assignment-Keeps d (s.directory c.tenant_id) at_utc c c.action new.task u keeps
            ∙ ap (check_assignment d (s.directory c.tenant_id) at_utc c c.action) (sym same)
            ∙ assigned)
          filed
        ∙ answer_filed t u receipt fingerprint
        ∙ ap (λ v. ok (record { value = v; replayed = true }, t)) value)

  -- After a command that answered, the same command, sent again, has the same answer, marked as a
  -- replay, and changes nothing (the access is asked for the same time).
  pub execute-again :
      (s t : MemoryState) (r : ActOnTaskResult)
      → execute d hash at_utc c s ≡ (ok r, t)
      → execute d hash at_utc c t ≡ (ok (record { value = r.value; replayed = true }), t)
  execute-again s t r h = elim (execute-outcome s t r h) [
    | inl old ↦
        let marked : r ≡ (record { value = r.value; replayed = true }) =
          old.answer
          ∙ ap (λ v. record { value = v; replayed = true }) (sym (ap (λ r. r.value) old.answer)) in
        ap (execute d hash at_utc c) old.kept ∙ h ∙ ap (λ x. (ok x, t)) marked
    | inr new ↦ again_new s t r h new
  ]

-- After a command that answered, another command of the same person with the same idempotency key
-- and action, but with a payload of a different fingerprint, is refused and changes nothing,
-- whatever it asks and whenever.
pub execute-key_reused :
    (d : DateApi) (hash : Payload → Text) (at_utc later : Text) (c other : ActOnTaskCommand)
    (s t : MemoryState) (r : ActOnTaskResult)
    → execute d hash at_utc c s ≡ (ok r, t)
    → other.tenant_id ≡ c.tenant_id
    → scope_of other ≡ scope_of c
    → hash (payload_of other) ≢ hash (payload_of c)
    → (e : ExecutionError) × (execute d hash later other t ≡ (err e, t))
execute-key_reused d hash at_utc later c other s t r h tenant scope new =
    by_result (execute d hash later other t) refl
  where
    by_result :
        (x : Result ExecutionError ActOnTaskResult × MemoryState)
        → execute d hash later other t ≡ x
        → (e : ExecutionError) × (execute d hash later other t ≡ (err e, t))
    by_result (err e, u) g =
        (e, g ∙ ap (λ u. (err e, u)) (execute-error d hash later other t u e g))
    by_result (ok q, u) g =
        let (receipt, filed, fingerprint, _) = execute-receipt d hash at_utc c s t r h in
        let here : receipts_get other.tenant_id t (scope_of other) ≡ some receipt =
          ap (λ x. receipts_get x t (scope_of other)) tenant
          ∙ ap (receipts_get c.tenant_id t) scope
          ∙ filed in
        elim (execute-outcome d hash later other t u q g) [
          | inl old ↦
              let both : some old.receipt ≡ some receipt = sym old.filed ∙ here in
              let same : old.receipt ≡ receipt = cc in
              let hashes : hash (payload_of other) ≡ hash (payload_of c) =
                sym old.fingerprint ∙ ap (λ x. x.fingerprint) same ∙ fingerprint in
              absurd (new hashes)
          | inr fresh ↦
              let both : none ≡ some receipt = sym fresh.fresh ∙ here in
              absurd (let never : ⊥ = cc in never)
        ]
