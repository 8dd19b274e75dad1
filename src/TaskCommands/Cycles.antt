-- ===== src/TaskCommands/Cycles.antt =====
-- The review cycles of a task: what an action adds to the records of reviews.
use project_process_map.Base.{
  ℕ, ◌+◌, ◌≤◌, ◌<◌, max, ◌≡◌, ◌≢◌, refl, sym, ◌∙◌, ap, Option, none, some, List, [], ◌∷◌, Bool,
  true, false, ◌&&◌, nat_beq, Bool-cases, Option-cases, subst, inl, inr, arith, All, IsIn, at_head,
  in_tail,
}
use project_process_map.Base.Results.{Result, ok, err, ◌>>=◌, ◌>>◌, >>=-eq-ok, throw_if, or_throw}
use project_process_map.Base.Text.{Text}
use project_process_map.Tasks.{
  ProductTask, TaskError, start_task, submit_task, accept_task, reject_task, withdraw_task,
  complete_task_without_review, assign_task_reviewer, assign_task_assignee,
}
use project_process_map.TaskCommands.{
  TaskReviewAction, submitted, accepted, rejected, withdrawn, TaskReviewActionRecord,
  TaskCommandAction, start, submit, accept, reject, withdraw, complete, assign_assignee,
  assign_reviewer, ActOnTaskCommand, reviewer_required, assignee_required,
  task_review_cycle_not_found, task_rejection_reason_required, is_submit, last_cycle,
  find_submitted, latest_submitted, review_record, Applied, apply, answer, apply_action,
}

last_cycle-le : (n : ℕ) (actions : List TaskReviewActionRecord) → n ≤ last_cycle n actions
unfolding last_cycle
last_cycle-le n [] = omega arith
last_cycle-le n (a ∷ actions) = omega (arith, last_cycle-le (max n a.cycle_number) actions)

last_cycle-All :
    (n bound : ℕ) (actions : List TaskReviewActionRecord)
    → last_cycle n actions ≤ bound
    → All (λ a. a.cycle_number ≤ bound) actions
unfolding last_cycle
last_cycle-All n bound [] h = tt
last_cycle-All n bound (a ∷ actions) h = (
  omega (arith, last_cycle-le (max n a.cycle_number) actions),
  last_cycle-All (max n a.cycle_number) bound actions h,
)

All-below :
    (bound : ℕ) (actions : List TaskReviewActionRecord)
    → All (λ a. a.cycle_number ≤ bound) actions
    → All (λ a. a.cycle_number < bound + 1) actions
All-below bound [] h = tt
All-below bound (a ∷ actions) h = (omega (arith, h.0), All-below bound actions h.1)

submit_of : (a : TaskReviewAction) → is_submit a ≡ true → a ≡ submitted
submit_of a h = ground arith

find_submitted-IsIn :
    (n : ℕ) (actions : List TaskReviewActionRecord) (a : TaskReviewActionRecord)
    → find_submitted n actions ≡ some a
    → IsIn a actions × (a.cycle_number ≡ n) × (a.action ≡ submitted)
unfolding find_submitted
find_submitted-IsIn n [] a h = absurd (let never : ⊥ = cc in never)
find_submitted-IsIn n (b ∷ actions) a h =
    elim (Bool-cases (nat_beq b.cycle_number n && is_submit b.action)) [
      | inl found ↦
          let same : a ≡ b = ground arith in
          let cycle : b.cycle_number ≡ n = ground arith in
          let action = submit_of b.action (ground arith) in
          (
            at_head same,
            ap (λ (x : TaskReviewActionRecord). x.cycle_number) same ∙ cycle,
            ap (λ (x : TaskReviewActionRecord). x.action) same ∙ action,
          )
      | inr other ↦
          let (there, cycle, action) = find_submitted-IsIn n actions a (ground arith) in
          (in_tail there, cycle, action)
    ]

-- A record that an action adds: it opens a new cycle, or it answers the submission of the last.
pub data IsCycleStep (actions : List TaskReviewActionRecord) (a : TaskReviewActionRecord)
    : Type 0 where
  opens :
      a.action ≡ submitted
      → All (λ b. b.cycle_number < a.cycle_number) actions
      → IsCycleStep actions a
  answers :
      (s : TaskReviewActionRecord)
      → IsIn s actions
      → s.action ≡ submitted
      → s.cycle_number ≡ a.cycle_number
      → s.reviewer_principal_id ≡ a.reviewer_principal_id
      → a.action ≢ submitted
      → All (λ b. b.cycle_number ≤ a.cycle_number) actions
      → IsCycleStep actions a

apply-review :
    (o : Result TaskError ProductTask) (review : Option TaskReviewActionRecord) (r : Applied)
    → apply o review ≡ ok r
    → r.review_action ≡ review
apply-review (err e) review r h = absurd (let never : ⊥ = cc in never)
apply-review (ok t) review r h = ground arith

-- An action without a record of a review.
no_record :
    {actions : List TaskReviewActionRecord} {a : TaskReviewActionRecord}
    (o : Result TaskError ProductTask) (r : Applied)
    → apply o none ≡ ok r
    → r.review_action ≡ some a
    → IsCycleStep actions a
no_record o r h e = let nothing = apply-review o none r h in absurd (let never : ⊥ = cc in never)

or_throw-some : (o : Option Text) (t : Text) → or_throw o reviewer_required ≡ ok t → o ≡ some t
or_throw-some o t h = ground arith

-- An action that files a record.
of_record :
    {actions : List TaskReviewActionRecord} (filed : TaskReviewActionRecord)
    (o : Result TaskError ProductTask) (r : Applied) (a : TaskReviewActionRecord)
    → apply o (some filed) ≡ ok r
    → r.review_action ≡ some a
    → IsCycleStep actions filed
    → IsCycleStep actions a
of_record {actions} filed o r a h e step =
    let there = sym (apply-review o (some filed) r h) ∙ e in
    let same : filed ≡ a = ground arith in subst (IsCycleStep actions) same step

submit-IsCycleStep :
    (task : ProductTask) (actions : List TaskReviewActionRecord) (c : ActOnTaskCommand)
    (r : Applied) (a : TaskReviewActionRecord)
    → apply_action task actions c submit ≡ ok r
    → r.review_action ≡ some a
    → IsCycleStep actions a
unfolding apply_action review_record
submit-IsCycleStep task actions c r a h e = elim (Bool-cases task.requires_acceptance) [
  | inr simple ↦ no_record (submit_task task) r (ground arith) e
  | inl reviewed ↦ elim (Option-cases task.reviewer_principal_id) [
    | inl nobody ↦ absurd (let never : ⊥ = ground arith in never)
    | inr (reviewer, named) ↦
        let fresh = last_cycle 0 actions + 1 in
        of_record (review_record c task submitted fresh reviewer) (submit_task task) r a
          (ground arith) e
          (opens refl (
            All-below (last_cycle 0 actions) actions
              (last_cycle-All 0 (last_cycle 0 actions) actions (omega arith))))
  ]
]

answer-IsCycleStep :
    (task : ProductTask) (actions : List TaskReviewActionRecord) (c : ActOnTaskCommand)
    (without_reason : Bool) (o : Result TaskError ProductTask) (action : TaskReviewAction)
    (r : Applied) (a : TaskReviewActionRecord)
    → action ≢ submitted
    → answer task actions c without_reason o action ≡ ok r
    → r.review_action ≡ some a
    → IsCycleStep actions a
unfolding answer latest_submitted review_record
answer-IsCycleStep task actions c without_reason o action r a differ h e =
    go (find_submitted (last_cycle 0 actions) actions) refl h
  where
    go :
        (found : Option TaskReviewActionRecord)
        → find_submitted (last_cycle 0 actions) actions ≡ found
        → (do
          submission ← or_throw found task_review_cycle_not_found
          reviewer ← or_throw submission.reviewer_principal_id reviewer_required
          throw_if without_reason task_rejection_reason_required
          apply o (some (review_record c task action submission.cycle_number reviewer)))
          ≡ ok r
        → IsCycleStep actions a
    go none f k = absurd (let never : ⊥ = cc in never)
    go (some s) f k =
        let (there, cycle, sub) = find_submitted-IsIn (last_cycle 0 actions) actions s f in
        let (reviewer, named, rest) =
          >>=-eq-ok (or_throw s.reviewer_principal_id reviewer_required) _ k in
        let (u, passed, done) =
          >>=-eq-ok (throw_if without_reason task_rejection_reason_required) _ rest in
        let filed = review_record c task action s.cycle_number reviewer in
        let named_so : s.reviewer_principal_id ≡ some reviewer =
          or_throw-some s.reviewer_principal_id reviewer named in
        of_record filed o r a done e (
          answers s there sub refl named_so differ
            (last_cycle-All 0 s.cycle_number actions (omega (arith, cycle))))

-- A record that an action on a task adds either opens a review cycle, as a submission with a number above all the records so far, or answers a submission of the last cycle, which is among them, with that cycle's number and reviewer.
pub apply-IsCycleStep :
    (task : ProductTask) (actions : List TaskReviewActionRecord) (c : ActOnTaskCommand)
    (action : TaskCommandAction) (r : Applied) (a : TaskReviewActionRecord)
    → apply_action task actions c action ≡ ok r
    → r.review_action ≡ some a
    → IsCycleStep actions a
unfolding apply_action
apply-IsCycleStep task actions c start r a h e = no_record (start_task task) r h e
apply-IsCycleStep task actions c complete r a h e =
    no_record (complete_task_without_review task) r h e
apply-IsCycleStep task actions c assign_reviewer r a h e =
    let (p, named, rest) = >>=-eq-ok (or_throw c.reviewer_principal_id reviewer_required) _ h in
    no_record (assign_task_reviewer task p) r rest e
apply-IsCycleStep task actions c assign_assignee r a h e =
    let (p, named, rest) = >>=-eq-ok (or_throw c.assignee_principal_id assignee_required) _ h in
    no_record (assign_task_assignee task p) r rest e
apply-IsCycleStep task actions c submit r a h e = submit-IsCycleStep task actions c r a h e
apply-IsCycleStep task actions c accept r a h e =
    answer-IsCycleStep task actions c false (accept_task task) accepted r a (λ k. cc) h e
apply-IsCycleStep task actions c reject r a h e =
    answer-IsCycleStep task actions c _ (reject_task task) rejected r a (λ k. cc) h e
apply-IsCycleStep task actions c withdraw r a h e =
    answer-IsCycleStep task actions c false (withdraw_task task) withdrawn r a (λ k. cc) h e
