-- ===== src/Security/Migration/Proposals.antt =====
-- `assertSecurityMigrationProgressChange` of packages/domain/src/security-migration.ts accepts a
-- proposed row exactly when an operation yields it.
use project_process_map.Base.{
  ◌≡◌, ◌≢◌, ◌↔◌, ◌⊎◌, inl, inr, refl, sym, ap, ◌∙◌, true, false, Option, arith, ◌==◌, eq_of,
  eq_refl, Bool-cases, and_split,
}
use project_process_map.Base.Equality.{option_eq, list_eq, nat_eq}
use project_process_map.Base.Results.{ok, >>=-eq-ok, throw_if-ok_iff}
use project_process_map.Base.Sets.{contains}
use project_process_map.Base.Dates.{DateApi}
use project_process_map.Base.Text.{Text}
use project_process_map.Security.Migration.{
  SecurityDomainMigration, SecurityDomainMigrationState, state_eq, transition_security_migration,
  Checkpoint, checkpoint_security_migration, same_migration, expected_progress, planned, active,
  verifying, retryable, recovery_required, committed, rolled_back,
  assert_security_migration_progress_change, or_empty, effective_security_domains, is_moving,
}
use project_process_map.Security.Migration.Progress.{
  Step, transition, checkpoint, Step-KeepsPlan, final,
}

same_migration_sound : (a b : SecurityDomainMigration) → same_migration a b ≡ true → a ≡ b
unfolding same_migration
same_migration_sound a b h =
    let h18 = and_split _ (a.updated_at_utc == b.updated_at_utc) h in
    let h17 = and_split _ (a.created_at_utc == b.created_at_utc) h18.0 in
    let h16 = and_split _ (a.version == b.version) h17.0 in
    let h15 = and_split _ (a.deadline_at_utc == b.deadline_at_utc) h16.0 in
    let h14 = and_split _ (a.next_attempt_at_utc == b.next_attempt_at_utc) h15.0 in
    let h13 = and_split _ (a.failure == b.failure) h14.0 in
    let h12 = and_split _ (a.migrated_items == b.migrated_items) h13.0 in
    let h11 = and_split _ (a.total_items == b.total_items) h12.0 in
    let h10 = and_split _ (a.cursor == b.cursor) h11.0 in
    let h9 = and_split _ (a.state == b.state) h10.0 in
    let h8 = and_split _ (a.target_security_epoch == b.target_security_epoch) h9.0 in
    let h7 = and_split _ (a.source_security_epoch == b.source_security_epoch) h8.0 in
    let h6 = and_split _ (a.hierarchy_revision == b.hierarchy_revision) h7.0 in
    let h5 = and_split _ (a.target_security_domain_id == b.target_security_domain_id) h6.0 in
    let h4 = and_split _ (a.source_security_domain_id == b.source_security_domain_id) h5.0 in
    let h3 = and_split _ (a.root_node_id == b.root_node_id) h4.0 in
    let h2 = and_split _ (a.project_id == b.project_id) h3.0 in
    let h1 = and_split _ (a.id == b.id) h2.0 in
    λ i. record {
      tenant_id = eq_of a.tenant_id b.tenant_id h1.0 i;
      id = eq_of a.id b.id h1.1 i;
      project_id = eq_of a.project_id b.project_id h2.1 i;
      root_node_id = eq_of a.root_node_id b.root_node_id h3.1 i;
      source_security_domain_id =
          eq_of a.source_security_domain_id b.source_security_domain_id h4.1 i;
      target_security_domain_id =
          eq_of a.target_security_domain_id b.target_security_domain_id h5.1 i;
      hierarchy_revision = eq_of a.hierarchy_revision b.hierarchy_revision h6.1 i;
      source_security_epoch = eq_of a.source_security_epoch b.source_security_epoch h7.1 i;
      target_security_epoch = eq_of a.target_security_epoch b.target_security_epoch h8.1 i;
      state = eq_of a.state b.state h9.1 i;
      cursor = eq_of a.cursor b.cursor h10.1 i;
      total_items = eq_of a.total_items b.total_items h11.1 i;
      migrated_items = eq_of a.migrated_items b.migrated_items h12.1 i;
      failure = eq_of a.failure b.failure h13.1 i;
      next_attempt_at_utc = eq_of a.next_attempt_at_utc b.next_attempt_at_utc h14.1 i;
      deadline_at_utc = eq_of a.deadline_at_utc b.deadline_at_utc h15.1 i;
      version = eq_of a.version b.version h16.1 i;
      created_at_utc = eq_of a.created_at_utc b.created_at_utc h17.1 i;
      updated_at_utc = eq_of a.updated_at_utc b.updated_at_utc h18.1 i;
    }

same_migration_refl : (a : SecurityDomainMigration) → same_migration a a ≡ true
unfolding same_migration
same_migration_refl a = simp (
  eq_refl a.tenant_id,
  eq_refl a.id,
  eq_refl a.project_id,
  eq_refl a.root_node_id,
  eq_refl a.source_security_domain_id,
  eq_refl a.target_security_domain_id,
  eq_refl a.hierarchy_revision,
  eq_refl a.source_security_epoch,
  eq_refl a.target_security_epoch,
  eq_refl a.state,
  eq_refl a.cursor,
  eq_refl a.total_items,
  eq_refl a.migrated_items,
  eq_refl a.failure,
  eq_refl a.next_attempt_at_utc,
  eq_refl a.deadline_at_utc,
  eq_refl a.version,
  eq_refl a.created_at_utc,
  eq_refl a.updated_at_utc,
)

-- The operation that a proposed row stands for yields the row itself.
accepted-expected :
    (d : DateApi) (m u : SecurityDomainMigration)
    → (assert_security_migration_progress_change d m u ≡ ok tt) ↔ (expected_progress d m u ≡ ok u)
unfolding assert_security_migration_progress_change
accepted-expected d m u = (
  λ h.
      let (w, e, same) = >>=-eq-ok (expected_progress d m u) _ h in
      let p = same_migration_sound w u (ground (arith, (throw_if-ok_iff _ _).0 same)) in
      e ∙ ap ok p,
  λ h. rw (h, same_migration_refl u),
)

expected-Step :
    (d : DateApi) (m u : SecurityDomainMigration) → expected_progress d m u ≡ ok u → Step d m u
unfolding expected_progress
expected-Step d m u h = elim (Bool-cases (m.state == u.state)) [
  | inl same ↦ checkpoint _ (rw same at h)
  | inr differ ↦ transition u.state u.updated_at_utc u.failure (rw differ at h)
]

-- What a successful transition and a successful checkpoint leave in the row.
transition_marks :
    (d : DateApi) (m u : SecurityDomainMigration) (target : SecurityDomainMigrationState)
    (at_utc : Text) (failure : Option Text)
    → transition_security_migration d m target at_utc failure ≡ ok u
    → ((m.state == u.state) ≡ false)
      × (u.state ≡ target)
      × (u.updated_at_utc ≡ at_utc)
      × (u.failure ≡ failure)
unfolding transition_security_migration
transition_marks d m u target at_utc failure e = ground arith

checkpoint_marks :
    (d : DateApi) (m u : SecurityDomainMigration) (c : Checkpoint)
    → checkpoint_security_migration d m c ≡ ok u
    → ((m.state == u.state) ≡ true)
      × (or_empty u.cursor ≡ c.cursor)
      × (u.migrated_items ≡ c.migrated_items)
      × (u.updated_at_utc ≡ c.occurred_at_utc)
unfolding checkpoint_security_migration
checkpoint_marks d m u c e = ground arith

Step-expected :
    {d : DateApi} {m u : SecurityDomainMigration} → Step d m u → expected_progress d m u ≡ ok u
unfolding expected_progress
Step-expected {d} {m} {u} (transition target at_utc failure e) =
    let (differ, a, b, c) = transition_marks d m u target at_utc failure e in
    rw differ (simp (a, b, c) e)
Step-expected {d} {m} {u} (checkpoint c e) =
    let (same, a, b, t) = checkpoint_marks d m u c e in rw same (simp (a, b, t) e)

-- The test of a proposed row passes exactly when a transition or a checkpoint makes that row of the stored one.
pub accepted_iff_Step :
    (d : DateApi) (m u : SecurityDomainMigration)
    → (assert_security_migration_progress_change d m u ≡ ok tt) ↔ Step d m u
accepted_iff_Step d m u = (
  λ h. expected-Step d m u ((accepted-expected d m u).0 h),
  λ s. (accepted-expected d m u).1 (Step-expected s),
)

-- While a migration moves, both of its ends count.
effective-moving :
    (m : SecurityDomainMigration)
    → is_moving m.state ≡ true
    → (contains (effective_security_domains m) m.source_security_domain_id ≡ true)
      × (contains (effective_security_domains m) m.target_security_domain_id ≡ true)
unfolding effective_security_domains
effective-moving m h = ground (
  arith,
  eq_refl m.source_security_domain_id,
  eq_refl m.target_security_domain_id,
  eq_of m.source_security_domain_id m.target_security_domain_id,
)

effective-ends :
    (m : SecurityDomainMigration) (domain : Option Text)
    → contains (effective_security_domains m) domain ≡ true
    → ((m.source_security_domain_id == domain) ≡ true)
      ⊎ ((m.target_security_domain_id == domain) ≡ true)
unfolding effective_security_domains
effective-ends m domain h = ground arith

counted_before :
    {d : DateApi} {m u : SecurityDomainMigration} (domain : Option Text)
    → Step d m u
    → is_moving m.state ≡ true
    → contains (effective_security_domains u) domain ≡ true
    → contains (effective_security_domains m) domain ≡ true
counted_before {m} {u} domain s moving h =
    let (source, target) = effective-moving m moving in
    let k = (Step-KeepsPlan s).0 in
    elim (effective-ends u domain h) [
      | inl at_source ↦
          rw (← eq_of u.source_security_domain_id domain at_source) (rw k.source source)
      | inr at_target ↦
          rw (← eq_of u.target_security_domain_id domain at_target) (rw k.target target)
    ]

-- The domain is an end of the migration that may count: the source until the commit, the target
-- from the activation on unless the migration is rolled back.
abbrev pub IsEnd : SecurityDomainMigration → Option Text → Type 0
IsEnd m domain =
    ((m.state ≢ committed) × (domain ≡ m.source_security_domain_id))
    ⊎ ((m.state ≢ planned) × (m.state ≢ rolled_back) × (domain ≡ m.target_security_domain_id))

state-moving :
    (state : SecurityDomainMigrationState)
    → state ≢ planned
    → state ≢ committed
    → state ≢ rolled_back
    → is_moving state ≡ true
state-moving state a b c = ground arith

either_end :
    (m : SecurityDomainMigration) (domain : Option Text)
    → contains (effective_security_domains m) domain ≡ true
    → (domain ≡ m.source_security_domain_id) ⊎ (domain ≡ m.target_security_domain_id)
either_end m domain h = elim (effective-ends m domain h) [
  | inl at_source ↦ inl (sym (eq_of m.source_security_domain_id domain at_source))
  | inr at_target ↦ inr (sym (eq_of m.target_security_domain_id domain at_target))
]

while_moving :
    (m : SecurityDomainMigration) (domain : Option Text)
    → m.state ≢ planned
    → m.state ≢ committed
    → m.state ≢ rolled_back
    → (domain ≡ m.source_security_domain_id) ⊎ (domain ≡ m.target_security_domain_id)
    → IsEnd m domain
while_moving m domain a b c (inl source) = inl (b, source)
while_moving m domain a b c (inr target) = inr (a, c, target)

by_state :
    (m : SecurityDomainMigration) (domain : Option Text) (state : SecurityDomainMigrationState)
    → m.state ≡ state
    → contains (effective_security_domains m) domain ≡ true
    → IsEnd m domain
unfolding effective_security_domains
by_state m domain planned e h =
    let at_source : (m.source_security_domain_id == domain) ≡ true = ground (arith, e) in
    inl
      ((λ p. let never : ⊥ = cc in never), sym (eq_of m.source_security_domain_id domain at_source))
by_state m domain active e h =
    while_moving m domain (λ p. let never : ⊥ = cc in never) (λ p. let never : ⊥ = cc in never)
      (λ p. let never : ⊥ = cc in never) (either_end m domain h)
by_state m domain verifying e h =
    while_moving m domain (λ p. let never : ⊥ = cc in never) (λ p. let never : ⊥ = cc in never)
      (λ p. let never : ⊥ = cc in never) (either_end m domain h)
by_state m domain retryable e h =
    while_moving m domain (λ p. let never : ⊥ = cc in never) (λ p. let never : ⊥ = cc in never)
      (λ p. let never : ⊥ = cc in never) (either_end m domain h)
by_state m domain recovery_required e h =
    while_moving m domain (λ p. let never : ⊥ = cc in never) (λ p. let never : ⊥ = cc in never)
      (λ p. let never : ⊥ = cc in never) (either_end m domain h)
by_state m domain committed e h =
    let at_target : (m.target_security_domain_id == domain) ≡ true = ground (arith, e) in
    inr (
      (λ p. let never : ⊥ = cc in never),
      (λ p. let never : ⊥ = cc in never),
      sym (eq_of m.target_security_domain_id domain at_target),
    )
by_state m domain rolled_back e h =
    let at_source : (m.source_security_domain_id == domain) ≡ true = ground (arith, e) in
    inl
      ((λ p. let never : ⊥ = cc in never), sym (eq_of m.source_security_domain_id domain at_source))

-- A transition or a checkpoint of a migration that has begun makes no domain count that did not
-- count before. A domain that counts afterwards is the source, and the migration is not committed,
-- or it is the target, and the migration is neither planned nor rolled back.
pub no_widening :
    {d : DateApi} {m u : SecurityDomainMigration} (domain : Option Text)
    → Step d m u
    → m.state ≢ planned
    → contains (effective_security_domains u) domain ≡ true
    → (contains (effective_security_domains m) domain ≡ true) × IsEnd u domain
no_widening {m} {u} domain s begun h =
    let (open_before, kept_before) = final s in
    (
      counted_before domain s (state-moving m.state begun open_before kept_before) h,
      by_state u domain u.state refl h,
    )
