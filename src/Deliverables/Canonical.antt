-- ===== src/Deliverables/Canonical.antt =====
-- What a canonical requirement is, said without the checks of packages/domain/src/deliverables.ts,
-- and that the checks accept exactly these.
use project_process_map.Base.{◌≡◌, ◌≢◌, true, none, [], All}
use project_process_map.Base.Equality.{list_eq, nat_eq}
use project_process_map.Base.Dates.{DateApi}
use project_process_map.Base.Checks.{InScope, IfGiven, Given, IsCount, IsFilled}
use project_process_map.Base.Text.{Text}
use project_process_map.Base.Text.Shapes.{is_key, IsCanonicalText}
use project_process_map.Security.Access.{IsTimestamp}
use project_process_map.Deliverables.{DeliverableStatus, EvidenceSourceType, DeliverableRequirement}
use project_process_map.Deliverables.Requirement.{RequirementScope}

abbrev pub IsKnownSource : EvidenceSourceType → Type 0
IsKnownSource s = (t : Text) → s ≢ EvidenceSourceType.unknown t

abbrev pub HasNoAcceptance : DeliverableRequirement → Type 0
HasNoAcceptance r =
    (r.accepted_by_principal_id ≡ none) × (r.accepted_at_utc ≡ none) × (r.accepted_reason ≡ none)

abbrev pub HasNoWaiver : DeliverableRequirement → Type 0
HasNoWaiver r =
    (r.waived_by_principal_id ≡ none) × (r.waived_at_utc ≡ none) × (r.waived_reason ≡ none)

-- The marks that each status carries and excludes.
abbrev pub IsSettled : DateApi → DeliverableRequirement → DeliverableStatus → Type 0
IsSettled d r DeliverableStatus.accepted =
    (r.accepted_by_principal_id ≢ none) × (Given (IsTimestamp d) r.accepted_at_utc × HasNoWaiver r)
IsSettled d r DeliverableStatus.waived =
    (r.waived_by_principal_id ≢ none)
    × (Given (IsTimestamp d) r.waived_at_utc
        × (Given IsCanonicalText r.waived_reason × HasNoAcceptance r))
IsSettled d r (DeliverableStatus.unknown s) = Unit
IsSettled d r _ = HasNoAcceptance r × HasNoWaiver r

pub record IsCanonical (d : DateApi) (scope : RequirementScope) (r : DeliverableRequirement)
    : Type 0 where
  pub in_scope :
      InScope scope.tenant_id r.tenant_id
      × (InScope scope.project_id r.project_id
          × (InScope scope.owner_node_id r.owner_node_id × InScope scope.id r.id))
  pub identity :
      IsCanonicalText r.tenant_id
      × (IsCanonicalText r.id
          × (IsCanonicalText r.project_id
              × (IsCanonicalText r.owner_node_id
                  × ((is_key r.requirement_key ≡ true) × IsFilled r.title))))
  pub policy :
      (r.accepted_source_types ≢ [])
      × (All IsKnownSource r.accepted_source_types
          × (IsCount r.min_count
              × (IsCanonicalText r.reviewer_principal_id
                  × (((t : Text) → r.status ≢ DeliverableStatus.unknown t)
                      × (IsCount r.version
                          × (IsCount r.security_epoch × IfGiven IsFilled r.security_domain_id))))))
  pub times :
      (IsTimestamp d r.created_at_utc × IsTimestamp d r.updated_at_utc)
      × IfGiven (IsTimestamp d) r.deleted_at_utc
  pub settled : IsSettled d r r.status
  pub marks :
      IfGiven IsCanonicalText r.accepted_by_principal_id
      × (IfGiven (IsTimestamp d) r.accepted_at_utc
          × (IfGiven IsCanonicalText r.accepted_reason
              × (IfGiven IsCanonicalText r.waived_by_principal_id
                  × (IfGiven (IsTimestamp d) r.waived_at_utc
                      × IfGiven IsCanonicalText r.waived_reason))))
