-- ===== src/Deliverables/EvidenceChecks.antt =====
-- What the validators of evidence links and of action records accept.
use project_process_map.Base.{
  ℕ, ◌≡◌, ◌≢◌, ◌≤◌, ◌↔◌, refl, false, not, none, List, [], ◌∷◌, any, leb, ◌!=◌, length, arith, All,
  or_false,
}
use project_process_map.Base.Equality.{list_eq, nat_eq}
use project_process_map.Base.Results.{ok, then_iff, last_iff}
use project_process_map.Base.Dates.{DateApi}
use project_process_map.Base.Checks.{
  InScope-iff, IfGiven-iff, IsCount-iff, InScope, IfGiven, IsCount, max_safe_integer,
}
use project_process_map.Base.Sets.{set_of, AllDistinct, set_size_iff}
use project_process_map.Base.Text.{Text}
use project_process_map.Base.Text.Shapes.{is_padded_or_empty, IsCanonicalText, IsCanonicalText-iff}
use project_process_map.Security.Access.{IsTimestamp, IsTimestamp-iff}
use project_process_map.Deliverables.Canonical.{IsKnownSource}
use project_process_map.Deliverables.Checks.{known_source_iff}
use project_process_map.Deliverables.Evidence.{
  EvidenceLink, DeliverableAction, DeliverableActionRecord, EvidenceScope, is_unknown_action,
  check_by_action, assert_canonical_evidence_link, assert_canonical_deliverable_action_record,
}

pub record IsCanonicalLink (d : DateApi) (scope : EvidenceScope) (l : EvidenceLink) : Type 0 where
  pub in_scope : InScope scope.tenant_id l.tenant_id × InScope scope.requirement_id l.requirement_id
  pub tenant : IsCanonicalText l.tenant_id
  pub id : IsCanonicalText l.id
  pub requirement : IsCanonicalText l.requirement_id
  pub source_kind : IsKnownSource l.source_type
  pub source : IsCanonicalText l.source_id
  pub submitter : IsCanonicalText l.submitted_by_principal_id
  pub linked : IsTimestamp d l.linked_at_utc
  pub counted : IsCount l.version

-- The validator accepts an evidence link in a scope exactly when it is canonical there: in the scope, with canonical identifiers, a known kind of source, a canonical timestamp and a version that is a positive safe integer.
link_accepted_iff :
    (d : DateApi) (scope : EvidenceScope) (l : EvidenceLink)
    → (assert_canonical_evidence_link d scope l ≡ ok tt) ↔ IsCanonicalLink d scope l
unfolding assert_canonical_evidence_link
link_accepted_iff d scope l =
    let (there, back) = then_iff _ (InScope-iff scope.tenant_id l.tenant_id) (
      then_iff _ (InScope-iff scope.requirement_id l.requirement_id) (
        then_iff _ (IsCanonicalText-iff l.tenant_id) (
          then_iff _ (IsCanonicalText-iff l.id) (
            then_iff _ (IsCanonicalText-iff l.requirement_id) (
              then_iff _ (known_source_iff l.source_type) (
                then_iff _ (IsCanonicalText-iff l.source_id) (
                  then_iff _ (IsCanonicalText-iff l.submitted_by_principal_id) (
                    then_iff _ (IsTimestamp-iff d l.linked_at_utc)
                      (last_iff _ (IsCount-iff l.version)))))))))) in
    (
      λ h.
          let (a, (b, (c, (e, (f, (g, (i, (j, (k, m))))))))) = there h in
          record {
            in_scope = (a, b);
            tenant = c;
            id = e;
            requirement = f;
            source_kind = g;
            source = i;
            submitter = j;
            linked = k;
            counted = m;
          },
      λ c. back (
        c.in_scope.0,
        (
          c.in_scope.1,
          (
            c.tenant,
            (
              c.id,
              (c.requirement, (c.source_kind, (c.source, (c.submitter, (c.linked, c.counted))))),
            ),
          ),
        ),
      ),
    )

-- What an action's record carries, by the action.
abbrev pub IsPlausible : DeliverableActionRecord → DeliverableAction → Type 0
IsPlausible r DeliverableAction.submitted = (r.reason ≡ none) × (r.evidence_ids ≢ [])
IsPlausible r DeliverableAction.initialized = (r.evidence_ids ≡ []) × (r.reason ≡ none)
IsPlausible r DeliverableAction.accepted = r.evidence_ids ≡ []
IsPlausible r DeliverableAction.waived = (r.evidence_ids ≡ []) × (r.reason ≢ none)
IsPlausible r (DeliverableAction.unknown s) = ⊥

pub record IsCanonicalAction (d : DateApi) (scope : EvidenceScope) (r : DeliverableActionRecord)
    : Type 0 where
  pub in_scope : InScope scope.tenant_id r.tenant_id × InScope scope.requirement_id r.requirement_id
  pub tenant : IsCanonicalText r.tenant_id
  pub id : IsCanonicalText r.id
  pub requirement : IsCanonicalText r.requirement_id
  pub actor : IsCanonicalText r.actor_principal_id
  pub occurred : IsTimestamp d r.occurred_at_utc
  pub bounded : r.evidence_count ≤ max_safe_integer
  pub evidence : All IsCanonicalText r.evidence_ids
  pub distinct : AllDistinct r.evidence_ids
  pub counted : r.evidence_count ≡ length r.evidence_ids
  pub reason : IfGiven IsCanonicalText r.reason
  pub plausible : IsPlausible r r.action

IsCanonicalText-any_iff :
    (ids : List Text) → (any is_padded_or_empty ids ≡ false) ↔ All IsCanonicalText ids
IsCanonicalText-any_iff [] = (λ _. tt, λ _. refl)
IsCanonicalText-any_iff (s ∷ ss) = (
  λ h.
      let (x, y) = or_false _ _ h in
      ((IsCanonicalText-iff s).0 x, (IsCanonicalText-any_iff ss).0 y),
  λ h. rw ((IsCanonicalText-iff s).1 h.0) ((IsCanonicalText-any_iff ss).1 h.1),
)

unequal_iff : (m n : ℕ) → ((m != n) ≡ false) ↔ (m ≡ n)
unequal_iff m n = (λ h. ground arith, λ h. ground arith)

distinct_iff : (ids : List Text) → ((length (set_of ids) != length ids) ≡ false) ↔ AllDistinct ids
distinct_iff ids =
    let (there, back) = set_size_iff ids in
    let (from, into) = unequal_iff (length (set_of ids)) (length ids) in
    (λ h. there (from h), λ h. into (back h))

bounded_iff : (n m : ℕ) → (not (leb n m) ≡ false) ↔ (n ≤ m)
bounded_iff n m = (λ h. ground arith, λ h. ground arith)

-- With the count of its evidence right, and its action known, the last tests say what is plausible.
by_action_iff :
    (r : DeliverableActionRecord) (a : DeliverableAction)
    → r.evidence_count ≡ length r.evidence_ids
    → is_unknown_action a ≡ false
    → (check_by_action r a ≡ ok tt) ↔ IsPlausible r a
unfolding check_by_action
by_action_iff r DeliverableAction.submitted n k = (λ h. ground arith, λ h. ground arith)
by_action_iff r DeliverableAction.initialized n k = (λ h. ground arith, λ h. ground arith)
by_action_iff r DeliverableAction.accepted n k = (λ h. ground arith, λ h. ground arith)
by_action_iff r DeliverableAction.waived n k = (λ h. ground arith, λ h. ground arith)
by_action_iff r (DeliverableAction.unknown s) n k = absurd (let never : ⊥ = cc in never)

plausible-known :
    (r : DeliverableActionRecord) (a : DeliverableAction)
    → IsPlausible r a
    → is_unknown_action a ≡ false
plausible-known r DeliverableAction.submitted p = refl
plausible-known r DeliverableAction.initialized p = refl
plausible-known r DeliverableAction.accepted p = refl
plausible-known r DeliverableAction.waived p = refl
plausible-known r (DeliverableAction.unknown s) p = absurd p

-- The validator accepts an action's record in a scope exactly when it is canonical there: in the scope, with canonical identifiers and timestamp, as many evidence ids as it counts, canonical and distinct ones, a canonical reason if any, and what its action demands: a submission has evidence and no reason, an initialization neither, an acceptance no evidence, a waiver a reason and no evidence.
pub action_accepted_iff :
    (d : DateApi) (scope : EvidenceScope) (r : DeliverableActionRecord)
    → (assert_canonical_deliverable_action_record d scope r ≡ ok tt) ↔ IsCanonicalAction d scope r
unfolding assert_canonical_deliverable_action_record
action_accepted_iff d scope r =
    let (there, back) = then_iff _ (InScope-iff scope.tenant_id r.tenant_id) (
      then_iff _ (InScope-iff scope.requirement_id r.requirement_id) (
        then_iff {b = is_unknown_action r.action} _ (λ h. h, λ h. h)
          (then_iff _ (IsCanonicalText-iff r.tenant_id) (
            then_iff _ (IsCanonicalText-iff r.id) (
              then_iff _ (IsCanonicalText-iff r.requirement_id) (
                then_iff _ (IsCanonicalText-iff r.actor_principal_id) (
                  then_iff _ (IsTimestamp-iff d r.occurred_at_utc) (
                    then_iff _ (bounded_iff r.evidence_count max_safe_integer) (
                      then_iff _ (IsCanonicalText-any_iff r.evidence_ids) (
                        then_iff _ (distinct_iff r.evidence_ids) (
                          then_iff _ (unequal_iff r.evidence_count (length r.evidence_ids)) (
                            then_iff _ (IfGiven-iff IsCanonicalText-iff r.reason)
                              (λ h. h, λ h. h))))))))))))) in
    (
      λ h.
          let (a, (b, (known, (c, (e, (f, (g, (i, (j, (k, (l, (m, (n, last))))))))))))) = there h in
          record {
            in_scope = (a, b);
            tenant = c;
            id = e;
            requirement = f;
            actor = g;
            occurred = i;
            bounded = j;
            evidence = k;
            distinct = l;
            counted = m;
            reason = n;
            plausible = (by_action_iff r r.action m known).0 last;
          },
      λ c.
          let known = plausible-known r r.action c.plausible in
          back (
            c.in_scope.0,
            (
              c.in_scope.1,
              (
                known,
                (
                  c.tenant,
                  (
                    c.id,
                    (
                      c.requirement,
                      (
                        c.actor,
                        (
                          c.occurred,
                          (
                            c.bounded,
                            (
                              c.evidence,
                              (
                                c.distinct,
                                (
                                  c.counted,
                                  (
                                    c.reason,
                                    (by_action_iff r r.action c.counted known).1 c.plausible,
                                  ),
                                ),
                              ),
                            ),
                          ),
                        ),
                      ),
                    ),
                  ),
                ),
              ),
            ),
          ),
    )
