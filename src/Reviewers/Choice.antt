-- ===== src/Reviewers/Choice.antt =====
-- What the choice of a reviewer guarantees.
use project_process_map.Base.{
  ◌≡◌, refl, sym, ◌∙◌, subst, Option, none, some, List, true, false, Bool-cases, Option-cases, inl,
  inr, arith, not_true, and_split,
}
use project_process_map.Base.Equality.{option_eq, list_eq, nat_eq}
use project_process_map.Base.Results.{ok}
use project_process_map.Base.Dates.{DateApi}
use project_process_map.Base.Sets.{contains}
use project_process_map.Base.Order.{sort, contains-sort}
use project_process_map.Base.Text.{Text, text_lt}
use project_process_map.Base.Text.Shapes.{is_key}
use project_process_map.Store.{keep}
use project_process_map.Reviewers.{
  ReviewTables, ResolveTaskReviewerParams, explicit, role_slot, node_owner, ResolvedReviewer,
  eligible, bound, from_slot, from_node, from_role, resolve_explicit, resolve_task_reviewer,
}
use project_process_map.Reviewers.Least.{contains-keep, first-sort, first_in, first-none}

-- The candidates that the slot of a key offers.
abbrev pub offered : ReviewTables → ResolveTaskReviewerParams → Text → List Text
offered t p key = bound (t.role_slots p.project_id key) (t.role_bindings p.project_id key)

-- No slot is asked for, or no candidate of it is eligible.
abbrev pub IsNobodyOffered :
    DateApi → ReviewTables → ResolveTaskReviewerParams → Option Text → Type 0
IsNobodyOffered d t p none = Unit
IsNobodyOffered d t p (some key) =
    (c : Text) → contains (offered t p key) c ≡ true → eligible d t p c ≡ false

-- Whom the three levels choose, and why not someone of a level before.
pub data IsChosen (d : DateApi) (t : ReviewTables) (p : ResolveTaskReviewerParams)
    : ResolvedReviewer → Type 0 where
  by_explicit :
      (r : Text)
      → p.explicit_reviewer_principal_id ≡ some r
      → eligible d t p r ≡ true
      → IsChosen d t p (record { reviewer_principal_id = r; source = explicit })
  by_role :
      (r key : Text)
      → p.explicit_reviewer_principal_id ≡ none
      → p.reviewer_role_slot_key ≡ some key
      → is_key key ≡ true
      → contains (offered t p key) r ≡ true
      → eligible d t p r ≡ true
      → ((c : Text)
          → contains (offered t p key) c ≡ true
          → eligible d t p c ≡ true
          → text_lt c r ≡ false)
      → IsChosen d t p (record { reviewer_principal_id = r; source = role_slot })
  by_node :
      (r : Text)
      → p.explicit_reviewer_principal_id ≡ none
      → IsNobodyOffered d t p p.reviewer_role_slot_key
      → p.node.leader_principal_id ≡ some r
      → eligible d t p r ≡ true
      → IsChosen d t p (record { reviewer_principal_id = r; source = node_owner })

module _ (d : DateApi) (t : ReviewTables) (p : ResolveTaskReviewerParams) where
  from_slot-some :
      (key r : Text)
      → from_slot d t p key ≡ some r
      → (contains (offered t p key) r ≡ true)
        × (eligible d t p r ≡ true)
        × ((c : Text)
            → contains (offered t p key) c ≡ true
            → eligible d t p c ≡ true
            → text_lt c r ≡ false)
  unfolding from_slot
  from_slot-some key r e =
      let kept = keep (eligible d t p) (offered t p key) in
      let there = sym (contains-sort r kept) ∙ first_in (sort kept) r e in
      let both = sym (contains-keep (eligible d t p) (offered t p key) r) ∙ there in
      let (able, named) = and_split _ _ both in
      (
        named,
        able,
        λ c m h.
            first-sort kept r c e
              (contains-keep (eligible d t p) (offered t p key) c ∙ rw (h, m) refl),
      )

  from_slot-none :
      (key c : Text)
      → from_slot d t p key ≡ none
      → contains (offered t p key) c ≡ true
      → eligible d t p c ≡ false
  unfolding from_slot
  from_slot-none key c e m =
      let kept = keep (eligible d t p) (offered t p key) in
      let gone : contains kept c ≡ false =
        sym (contains-sort c kept) ∙ first-none (sort kept) c e in
      not_true (eligible d t p c) (λ h.
        let there : contains kept c ≡ true =
          contains-keep (eligible d t p) (offered t p key) c ∙ rw (h, m) refl in
        let never : ⊥ = cc in never)

  from_node-IsChosen :
      (leader : Option Text) (r : ResolvedReviewer)
      → p.explicit_reviewer_principal_id ≡ none
      → IsNobodyOffered d t p p.reviewer_role_slot_key
      → p.node.leader_principal_id ≡ leader
      → from_node d t p leader ≡ ok r
      → IsChosen d t p r
  unfolding from_node
  from_node-IsChosen none r x y z h = absurd (let never : ⊥ = cc in never)
  from_node-IsChosen (some leader) r x y z h = elim (Bool-cases (eligible d t p leader)) [
    | inl able ↦ subst (IsChosen d t p) (ground arith) (by_node leader x y z able)
    | inr unable ↦ absurd (let never : ⊥ = ground arith in never)
  ]

  from_role-IsChosen :
      (key : Option Text) (r : ResolvedReviewer)
      → p.explicit_reviewer_principal_id ≡ none
      → p.reviewer_role_slot_key ≡ key
      → from_role d t p key ≡ ok r
      → IsChosen d t p r
  unfolding from_role
  from_role-IsChosen none r x y h =
      from_node-IsChosen p.node.leader_principal_id r x (subst (IsNobodyOffered d t p) (sym y) tt)
        refl h
  from_role-IsChosen (some key) r x y h = elim (Bool-cases (is_key key)) [
    | inr bad ↦ absurd (let never : ⊥ = ground arith in never)
    | inl good ↦ elim (Option-cases (from_slot d t p key)) [
      | inl nobody ↦
          from_node-IsChosen p.node.leader_principal_id r x
            (subst (IsNobodyOffered d t p) (sym y) (λ c m. from_slot-none key c nobody m)) refl
            (ground arith)
      | inr (c, found) ↦
          let (named, able, least) = from_slot-some key c found in
          subst (IsChosen d t p) (ground arith) (by_role c key x y good named able least)
    ]
  ]

-- A reviewer that is resolved is eligible and chosen by the order of the levels: the explicit one; or, where none is given, the least eligible candidate bound to the slot; or, where the slot offers no eligible candidate, the leader of the node.
pub resolved-IsChosen :
    (d : DateApi) (t : ReviewTables) (p : ResolveTaskReviewerParams) (r : ResolvedReviewer)
    → resolve_task_reviewer d t p ≡ ok r
    → IsChosen d t p r
unfolding resolve_task_reviewer resolve_explicit
resolved-IsChosen d t p r h = go p.explicit_reviewer_principal_id refl h
  where
    go :
        (given : Option Text)
        → p.explicit_reviewer_principal_id ≡ given
        → resolve_explicit d t p given ≡ ok r
        → IsChosen d t p r
    go none e k = from_role-IsChosen d t p p.reviewer_role_slot_key r e refl k
    go (some given) e k = elim (Bool-cases (eligible d t p given)) [
      | inl able ↦ subst (IsChosen d t p) (ground arith) (by_explicit given e able)
      | inr unable ↦ absurd (let never : ⊥ = ground arith in never)
    ]
