-- ===== src/Deliverables/Steps.antt =====
-- The life of a requirement under the operations of packages/domain/src/deliverables.ts.
use project_process_map.Base.{◌+◌, ◌≤◌, ◌<◌, ◌≡◌, ◌≢◌, ◌⊎◌, refl, subst, Option, none, some, arith}
use project_process_map.Base.Results.{ok}
use project_process_map.Base.Checks.{IfGiven, max_safe_integer}
use project_process_map.Base.Dates.{DateApi}
use project_process_map.Base.Text.{Text, trim}
use project_process_map.Base.Text.Trim.{trim_idempotent}
use project_process_map.Base.Text.Shapes.{IsCanonicalText}
use project_process_map.Security.Access.{IsTimestamp}
use project_process_map.Deliverables.{
  DeliverableStatus, pending, submitted, accepted, waived, evidence_due, unknown,
  DeliverableRequirement, Acceptance, Waiver, trimmed_or_null, submit_deliverable,
  accept_deliverable, waive_deliverable,
}
use project_process_map.Deliverables.Requirement.{
  RequirementScope, assert_canonical_deliverable_requirement,
}
use project_process_map.Deliverables.Canonical.{
  HasNoAcceptance, HasNoWaiver, IsSettled, IsCanonical,
}
use project_process_map.Deliverables.Checks.{accepted_iff_IsCanonical}

-- One successful operation with canonical inputs.
pub data Step (d : DateApi) (r : DeliverableRequirement) : DeliverableRequirement → Type 0 where
  submit :
      {u : DeliverableRequirement} (at_utc : Text)
      → IsTimestamp d at_utc
      → submit_deliverable r at_utc ≡ ok u
      → Step d r u
  accept :
      {u : DeliverableRequirement} (o : Acceptance)
      → IsCanonicalText o.accepted_by_principal_id
      → IsTimestamp d o.occurred_at_utc
      → accept_deliverable r o ≡ ok u
      → Step d r u
  waive :
      {u : DeliverableRequirement} (o : Waiver)
      → IsCanonicalText o.waived_by_principal_id
      → IsTimestamp d o.occurred_at_utc
      → waive_deliverable r o ≡ ok u
      → Step d r u

pub data Reach (d : DateApi) (r : DeliverableRequirement) : DeliverableRequirement → Type 0 where
  here : Reach d r r
  next : {u v : DeliverableRequirement} → Reach d r u → Step d u v → Reach d r v

-- The status of a requirement that an operation may still move.
abbrev pub IsOpen : DeliverableStatus → Type 0
IsOpen s = (s ≡ pending) ⊎ (s ≡ submitted) ⊎ (s ≡ evidence_due)

open_marks :
    (d : DateApi) (r : DeliverableRequirement) (s : DeliverableStatus)
    → ((t : Text) → s ≢ unknown t)
    → s ≢ accepted
    → s ≢ waived
    → IsSettled d r s
    → HasNoAcceptance r × HasNoWaiver r
open_marks d r pending k a w h = h
open_marks d r submitted k a w h = h
open_marks d r evidence_due k a w h = h
open_marks d r accepted k a w h = absurd (a refl)
open_marks d r waived k a w h = absurd (w refl)
open_marks d r (unknown t) k a w h = absurd (k t refl)

trimmed_or_null-IsCanonicalText : (o : Option Text) → IfGiven IsCanonicalText (trimmed_or_null o)
unfolding trimmed_or_null
trimmed_or_null-IsCanonicalText none = tt
trimmed_or_null-IsCanonicalText (some s) = ground (arith, trim_idempotent s)

module _ {d : DateApi} {scope : RequirementScope} (r : DeliverableRequirement)
    (c : IsCanonical d scope r) (room : r.version < max_safe_integer) where
  version_count : (0 < r.version + 1) × (r.version + 1 ≤ max_safe_integer)
  version_count = (omega arith, omega arith)

  submit-IsCanonical :
      (u : DeliverableRequirement) (at_utc : Text)
      → IsTimestamp d at_utc
      → submit_deliverable r at_utc ≡ ok u
      → IsCanonical d scope u
  unfolding submit_deliverable
  submit-IsCanonical u at_utc t e =
      let p = c.policy in
      let marks = open_marks d r r.status p.1.1.1.1.0 (ground arith) (ground arith) c.settled in
      subst (IsCanonical d scope)
        (let same : record r {
          status = submitted;
          version = r.version + 1;
          updated_at_utc = at_utc;
        }
              ≡ u =
            ground arith in
          same)
        (record {
          in_scope = c.in_scope;
          identity = c.identity;
          policy =
              (p.0, (p.1.0, (p.1.1.0, (p.1.1.1.0, (λ t e. cc, (version_count, p.1.1.1.1.1.1))))));
          times = ((c.times.0.0, t), c.times.1);
          settled = marks;
          marks = c.marks;
        })

  accept-IsCanonical :
      (u : DeliverableRequirement) (o : Acceptance)
      → IsCanonicalText o.accepted_by_principal_id
      → IsTimestamp d o.occurred_at_utc
      → accept_deliverable r o ≡ ok u
      → IsCanonical d scope u
  unfolding accept_deliverable
  accept-IsCanonical u o by t e =
      let p = c.policy in
      let marks = open_marks d r r.status p.1.1.1.1.0 (ground arith) (ground arith) c.settled in
      subst (IsCanonical d scope)
        (let same : record r {
          status = accepted;
          accepted_by_principal_id = some o.accepted_by_principal_id;
          accepted_at_utc = some o.occurred_at_utc;
          accepted_reason = trimmed_or_null o.accepted_reason;
          version = r.version + 1;
          updated_at_utc = o.occurred_at_utc;
        }
              ≡ u =
            ground arith in
          same)
        (record {
          in_scope = c.in_scope;
          identity = c.identity;
          policy =
              (p.0, (p.1.0, (p.1.1.0, (p.1.1.1.0, (λ t e. cc, (version_count, p.1.1.1.1.1.1))))));
          times = ((c.times.0.0, t), c.times.1);
          settled = (λ e. cc, (t, marks.1));
          marks = (by, (t, (trimmed_or_null-IsCanonicalText o.accepted_reason, c.marks.1.1.1)));
        })

  waive-IsCanonical :
      (u : DeliverableRequirement) (o : Waiver)
      → IsCanonicalText o.waived_by_principal_id
      → IsTimestamp d o.occurred_at_utc
      → waive_deliverable r o ≡ ok u
      → IsCanonical d scope u
  unfolding waive_deliverable
  waive-IsCanonical u o by t e =
      let p = c.policy in
      let marks = open_marks d r r.status p.1.1.1.1.0 (ground arith) (ground arith) c.settled in
      let reason : IsCanonicalText (trim o.reason) = ground (arith, trim_idempotent o.reason) in
      subst (IsCanonical d scope)
        (let same : record r {
          status = waived;
          waived_by_principal_id = some o.waived_by_principal_id;
          waived_at_utc = some o.occurred_at_utc;
          waived_reason = some (trim o.reason);
          version = r.version + 1;
          updated_at_utc = o.occurred_at_utc;
        }
              ≡ u =
            ground arith in
          same)
        (record {
          in_scope = c.in_scope;
          identity = c.identity;
          policy =
              (p.0, (p.1.0, (p.1.1.0, (p.1.1.1.0, (λ t e. cc, (version_count, p.1.1.1.1.1.1))))));
          times = ((c.times.0.0, t), c.times.1);
          settled = (λ e. cc, (t, (reason, marks.0)));
          marks = (c.marks.0, (c.marks.1.0, (c.marks.1.1.0, (by, (t, reason)))));
        })

Step-IsCanonical :
    {d : DateApi} {scope : RequirementScope} {r u : DeliverableRequirement}
    → Step d r u
    → r.version < max_safe_integer
    → IsCanonical d scope r
    → IsCanonical d scope u
Step-IsCanonical {r} {u} (submit at_utc t e) room c = submit-IsCanonical r c room u at_utc t e
Step-IsCanonical {r} {u} (accept o by t e) room c = accept-IsCanonical r c room u o by t e
Step-IsCanonical {r} {u} (waive o by t e) room c = waive-IsCanonical r c room u o by t e

Step-version : {d : DateApi} {r u : DeliverableRequirement} → Step d r u → u.version ≡ r.version + 1
unfolding submit_deliverable accept_deliverable waive_deliverable
Step-version (submit at_utc t e) = ground arith
Step-version (accept o by t e) = ground arith
Step-version (waive o by t e) = ground arith

Reach-IsCanonical :
    {d : DateApi} {scope : RequirementScope} {r u : DeliverableRequirement}
    → Reach d r u
    → u.version ≤ max_safe_integer
    → IsCanonical d scope r
    → IsCanonical d scope u
Reach-IsCanonical here room c = c
Reach-IsCanonical (next reached s) room c =
    Step-IsCanonical s (omega (arith, Step-version s))
      (Reach-IsCanonical reached (omega (arith, Step-version s)) c)

-- From a requirement that the validator accepts, submitting, accepting and waiving with canonical actors and times lead to requirements that it accepts, as long as the version is a safe integer.
pub reached_accepted :
    {d : DateApi} {r u : DeliverableRequirement} (scope : RequirementScope)
    → Reach d r u
    → u.version ≤ max_safe_integer
    → assert_canonical_deliverable_requirement d scope r ≡ ok tt
    → assert_canonical_deliverable_requirement d scope u ≡ ok tt
reached_accepted {d} {r} {u} scope reached room h =
    (accepted_iff_IsCanonical d scope u).1
      (Reach-IsCanonical reached room ((accepted_iff_IsCanonical d scope r).0 h))
