-- ===== src/Deliverables/Checks.antt =====
-- `assertCanonicalDeliverableRequirement` accepts exactly the canonical requirements.
use project_process_map.Base.{
  ◌≡◌, ◌≢◌, ◌↔◌, refl, true, false, not, ◌||◌, Option, none, some, List, [], ◌∷◌, any, arith, All,
  or_false,
}
use project_process_map.Base.Equality.{list_eq, nat_eq}
use project_process_map.Base.Results.{ok, ◌>>◌, when, then_iff, last_iff, also_iff, before_ok_iff}
use project_process_map.Base.Dates.{DateApi, is_some}
use project_process_map.Base.Checks.{
  InScope-iff, IfGiven-iff, IsCount-iff, IsFilled-iff, not-false_iff, both_iff, InScope, IfGiven,
  Given, IsCount, IsFilled,
}
use project_process_map.Base.Text.{Text}
use project_process_map.Base.Text.Shapes.{is_key, IsCanonicalText, IsCanonicalText-iff}
use project_process_map.Security.Access.{IsTimestamp, IsTimestamp-iff}
use project_process_map.Deliverables.{
  DeliverableStatus, EvidenceSourceType, DeliverableRequirement, is_pending, is_submitted,
  is_accepted, is_waived, is_evidence_due,
}
use project_process_map.Deliverables.Requirement.{
  Check, RequirementScope, check_scope, check_identity, check_policy, check_times, check_open,
  check_accepted, check_waived, check_settlement, check_marks, is_unknown_source, is_none_given,
  is_unknown_status, is_missing_timestamp, is_missing_reason, has_waiver, has_acceptance,
  assert_canonical_deliverable_requirement,
}
use project_process_map.Deliverables.Canonical.{
  IsKnownSource, HasNoAcceptance, HasNoWaiver, IsSettled, IsCanonical,
}

pub known_source_iff : (s : EvidenceSourceType) → (is_unknown_source s ≡ false) ↔ IsKnownSource s
known_source_iff EvidenceSourceType.file = (λ _ t e. cc, λ _. refl)
known_source_iff EvidenceSourceType.process_record = (λ _ t e. cc, λ _. refl)
known_source_iff (EvidenceSourceType.unknown s) = (λ h. cc, λ h. absurd (h s refl))

sources_iff :
    (ss : List EvidenceSourceType) → (any is_unknown_source ss ≡ false) ↔ All IsKnownSource ss
sources_iff [] = (λ _. tt, λ _. refl)
sources_iff (s ∷ ss) = (
  λ h. let (x, y) = or_false _ _ h in ((known_source_iff s).0 x, (sources_iff ss).0 y),
  λ h. rw ((known_source_iff s).1 h.0) ((sources_iff ss).1 h.1),
)

some_given_iff : (ss : List EvidenceSourceType) → (is_none_given ss ≡ false) ↔ (ss ≢ [])
some_given_iff ss = (λ h. ground arith, λ h. ground arith)

known_status_iff :
    (s : DeliverableStatus)
    → (is_unknown_status s ≡ false) ↔ ((t : Text) → s ≢ DeliverableStatus.unknown t)
known_status_iff (DeliverableStatus.unknown t) = (λ h. cc, λ h. absurd (h t refl))
known_status_iff DeliverableStatus.pending = (λ _ t e. cc, λ _. refl)
known_status_iff DeliverableStatus.submitted = (λ _ t e. cc, λ _. refl)
known_status_iff DeliverableStatus.accepted = (λ _ t e. cc, λ _. refl)
known_status_iff DeliverableStatus.waived = (λ _ t e. cc, λ _. refl)
known_status_iff DeliverableStatus.evidence_due = (λ _ t e. cc, λ _. refl)

some_iff : (o : Option Text) → (not (is_some o) ≡ false) ↔ (o ≢ none)
some_iff o = (λ h. ground arith, λ h. ground arith)

IsTimestamp-Given_iff :
    (d : DateApi) (o : Option Text) → (is_missing_timestamp d o ≡ false) ↔ Given (IsTimestamp d) o
IsTimestamp-Given_iff d none = (λ h. cc, λ h. absurd h)
IsTimestamp-Given_iff d (some s) = IsTimestamp-iff d s

reason-Given_iff : (o : Option Text) → (is_missing_reason o ≡ false) ↔ Given IsCanonicalText o
reason-Given_iff none = (λ h. cc, λ h. absurd h)
reason-Given_iff (some s) = IsCanonicalText-iff s

module _ (r : DeliverableRequirement) where
  check_scope_iff :
      (scope : RequirementScope)
      → (check_scope scope r ≡ ok tt) ↔ (
          InScope scope.tenant_id r.tenant_id
          × (InScope scope.project_id r.project_id
              × (InScope scope.owner_node_id r.owner_node_id × InScope scope.id r.id)))
  unfolding check_scope
  check_scope_iff scope = then_iff _ (InScope-iff scope.tenant_id r.tenant_id) (
      then_iff _ (InScope-iff scope.project_id r.project_id) (
        then_iff _ (InScope-iff scope.owner_node_id r.owner_node_id)
          (last_iff _ (InScope-iff scope.id r.id))))

  check_identity_iff : (check_identity r ≡ ok tt) ↔ (
      IsCanonicalText r.tenant_id
      × (IsCanonicalText r.id
          × (IsCanonicalText r.project_id
              × (IsCanonicalText r.owner_node_id
                  × ((is_key r.requirement_key ≡ true) × IsFilled r.title)))))
  unfolding check_identity
  check_identity_iff = then_iff _ (IsCanonicalText-iff r.tenant_id) (
      then_iff _ (IsCanonicalText-iff r.id) (
        then_iff _ (IsCanonicalText-iff r.project_id) (
          then_iff _ (IsCanonicalText-iff r.owner_node_id) (
            then_iff _ (not-false_iff (is_key r.requirement_key))
              (last_iff _ (IsFilled-iff r.title))))))

  check_policy_iff : (check_policy r ≡ ok tt) ↔ (
      (r.accepted_source_types ≢ [])
      × (All IsKnownSource r.accepted_source_types
          × (IsCount r.min_count
              × (IsCanonicalText r.reviewer_principal_id
                  × (((t : Text) → r.status ≢ DeliverableStatus.unknown t)
                      × (IsCount r.version
                          × (IsCount r.security_epoch × IfGiven IsFilled r.security_domain_id)))))))
  unfolding check_policy
  check_policy_iff = then_iff _ (some_given_iff r.accepted_source_types) (
      then_iff _ (sources_iff r.accepted_source_types) (
        then_iff _ (IsCount-iff r.min_count) (
          then_iff _ (IsCanonicalText-iff r.reviewer_principal_id) (
            then_iff _ (known_status_iff r.status) (
              then_iff _ (IsCount-iff r.version) (
                then_iff _ (IsCount-iff r.security_epoch)
                  (last_iff _ (IfGiven-iff IsFilled-iff r.security_domain_id))))))))

  no_acceptance_iff : (has_acceptance r ≡ false) ↔ HasNoAcceptance r
  no_acceptance_iff = (λ h. ground arith, λ h. ground arith)

  no_waiver_iff : (has_waiver r ≡ false) ↔ HasNoWaiver r
  no_waiver_iff = (λ h. ground arith, λ h. ground arith)

  check_open_iff : (check_open r ≡ ok tt) ↔ (HasNoAcceptance r × HasNoWaiver r)
  unfolding check_open
  check_open_iff = then_iff _ no_acceptance_iff (last_iff _ no_waiver_iff)

  module _ (d : DateApi) where
    check_times_iff : (check_times d r ≡ ok tt) ↔ (
        (IsTimestamp d r.created_at_utc × IsTimestamp d r.updated_at_utc)
        × IfGiven (IsTimestamp d) r.deleted_at_utc)
    unfolding check_times
    check_times_iff =
        then_iff _
          (both_iff _ _ (IsTimestamp-iff d r.created_at_utc) (IsTimestamp-iff d r.updated_at_utc))
          (last_iff _ (IfGiven-iff (IsTimestamp-iff d) r.deleted_at_utc))

    check_marks_iff : (check_marks d r ≡ ok tt) ↔ (
        IfGiven IsCanonicalText r.accepted_by_principal_id
        × (IfGiven (IsTimestamp d) r.accepted_at_utc
            × (IfGiven IsCanonicalText r.accepted_reason
                × (IfGiven IsCanonicalText r.waived_by_principal_id
                    × (IfGiven (IsTimestamp d) r.waived_at_utc
                        × IfGiven IsCanonicalText r.waived_reason)))))
    unfolding check_marks
    check_marks_iff = then_iff _ (IfGiven-iff IsCanonicalText-iff r.accepted_by_principal_id) (
        then_iff _ (IfGiven-iff (IsTimestamp-iff d) r.accepted_at_utc) (
          then_iff _ (IfGiven-iff IsCanonicalText-iff r.accepted_reason) (
            then_iff _ (IfGiven-iff IsCanonicalText-iff r.waived_by_principal_id) (
              then_iff _ (IfGiven-iff (IsTimestamp-iff d) r.waived_at_utc)
                (last_iff _ (IfGiven-iff IsCanonicalText-iff r.waived_reason))))))

    check_accepted_iff : (check_accepted d r ≡ ok tt) ↔ IsSettled d r DeliverableStatus.accepted
    unfolding check_accepted
    check_accepted_iff =
        then_iff _ (some_iff r.accepted_by_principal_id)
          (then_iff _ (IsTimestamp-Given_iff d r.accepted_at_utc) (last_iff _ no_waiver_iff))

    check_waived_iff : (check_waived d r ≡ ok tt) ↔ IsSettled d r DeliverableStatus.waived
    unfolding check_waived
    check_waived_iff = then_iff _ (some_iff r.waived_by_principal_id) (
        then_iff _ (IsTimestamp-Given_iff d r.waived_at_utc)
          (then_iff _ (reason-Given_iff r.waived_reason) (last_iff _ no_acceptance_iff)))

    -- The three blocks, for each status.
    blocks : DeliverableStatus → Check
    blocks s =
        when (is_accepted s) (check_accepted d r)
        >> (when (is_waived s) (check_waived d r)
            >> when (is_pending s || is_submitted s || is_evidence_due s) (check_open r))

    blocks_iff : (s : DeliverableStatus) → (blocks s ≡ ok tt) ↔ IsSettled d r s
    unfolding blocks
    blocks_iff DeliverableStatus.accepted = before_ok_iff check_accepted_iff
    blocks_iff DeliverableStatus.waived = before_ok_iff check_waived_iff
    blocks_iff DeliverableStatus.pending = check_open_iff
    blocks_iff DeliverableStatus.submitted = check_open_iff
    blocks_iff DeliverableStatus.evidence_due = check_open_iff
    blocks_iff (DeliverableStatus.unknown t) = (λ _. tt, λ _. refl)

    check_settlement_iff : (check_settlement d r ≡ ok tt) ↔ IsSettled d r r.status
    unfolding check_settlement blocks
    check_settlement_iff = blocks_iff r.status

-- The validator accepts a requirement in a scope exactly when it is canonical there: in the scope, with canonical identifiers, policy and times, and with the marks of its status and no others.
pub accepted_iff_IsCanonical :
    (d : DateApi) (scope : RequirementScope) (r : DeliverableRequirement)
    → (assert_canonical_deliverable_requirement d scope r ≡ ok tt) ↔ IsCanonical d scope r
unfolding assert_canonical_deliverable_requirement
accepted_iff_IsCanonical d scope r =
    let (there, back) = also_iff (check_scope_iff r scope) (
      also_iff (check_identity_iff r) (
        also_iff (check_policy_iff r) (
          also_iff (check_times_iff r d)
            (also_iff (check_settlement_iff r d) (check_marks_iff r d))))) in
    (
      λ h.
          let c = there h in
          record {
            in_scope = c.0;
            identity = c.1.0;
            policy = c.1.1.0;
            times = c.1.1.1.0;
            settled = c.1.1.1.1.0;
            marks = c.1.1.1.1.1;
          },
      λ c. back (c.in_scope, (c.identity, (c.policy, (c.times, (c.settled, c.marks))))),
    )
