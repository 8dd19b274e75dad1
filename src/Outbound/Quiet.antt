-- ===== src/Outbound/Quiet.antt =====
-- What it means that nothing is on its way out of a migration's part of a project
-- (packages/adapters/src/memory/persistence.ts).
use project_process_map.Base.{
  ℕ, zero, suc, ◌<◌, ◌≡◌, ◌⊎◌, inl, inr, refl, sym, ◌∙◌, ap, Bool, true, false, Option, none, some,
  List, [], ◌∷◌, ◌==◌, length, any, IsIn, at_head, in_tail, Bool-cases, Option-cases, arith,
}
use project_process_map.Base.Equality.{option_eq, list_eq, nat_eq}
use project_process_map.Base.Sets.{contains}
use project_process_map.Base.Tables.{get, outside, outside-lt}
use project_process_map.Base.Dates.{is_some}
use project_process_map.Base.Text.{Text}
use project_process_map.Projects.{ProjectNode}
use project_process_map.Access.Scope.{Below, at_root, under}
use project_process_map.Fences.{OutboundProjectionFence}
use project_process_map.Security.Migration.{SecurityDomainMigration}
use project_process_map.Integrations.{IntegrationOperation}
use project_process_map.Outbound.{
  OutboundState, walk_meets, or_true, meets_scope, is_active, is_unresolved, Subject, subject_of,
  subject_blocks, fence_blocks, operation_blocks,
  has_active_fence_or_unresolved_operation_in_migration_scope,
}

true_not_false : true ≡ false → ⊥
true_not_false never = cc

module _ {A : Type 0} (p : A → Bool) where
  none_of : (x : A) (xs : List A) → any p xs ≡ false → IsIn x xs → p x ≡ false
  none_of x [] h there = elim there [ ]
  none_of x (y ∷ ys) h (at_head same) = rw same (ground arith)
  none_of x (y ∷ ys) h (in_tail there) = none_of x ys (ground arith) there

module _ (nodes : List (Text × ProjectNode)) (project root : Text) where
  -- With more fuel than there are nodes left to see, the walk ends by one of its tests.
  walk_meets_total :
      (fuel : ℕ) (visited : List Text) (current : Option Text)
      → outside nodes visited < fuel
      → is_some (walk_meets fuel nodes project root visited current) ≡ true
  unfolding walk_meets
  walk_meets_total zero visited current h = absurd (omega arith)
  walk_meets_total (suc fuel) visited none h = refl
  walk_meets_total (suc fuel) visited (some id) h = elim (Bool-cases (contains visited id)) [
    | inl seen ↦ ground arith
    | inr new ↦ elim (Option-cases (get nodes id)) [
      | inl missing ↦ ground arith
      | inr (node, found) ↦
          let less = outside-lt nodes visited id node found new in
          let ends = walk_meets_total fuel (id ∷ visited) node.parent_id (omega arith) in
          ground arith
    ]
  ]

  walk-Below :
      (fuel : ℕ) (visited : List Text) (id : Text)
      → Below nodes project root id
      → or_true (walk_meets fuel nodes project root visited (some id)) ≡ true
  unfolding walk_meets
  walk-Below zero visited id chain = refl
  walk-Below (suc fuel) visited id (at_root node found here top) = ground arith
  walk-Below (suc fuel) visited id (under node parent found here lower up chain) =
      let rest = walk-Below fuel (id ∷ visited) parent chain in ground arith

  Below-meets : (id : Text) → Below nodes project root id → meets_scope nodes project root id ≡ true
  unfolding meets_scope
  Below-meets id chain = walk-Below (suc (length nodes)) [] id chain

-- The nodes whose objects may still be on their way out: the owner nodes of the fences of the
-- migration's project that have not expired, and of the tasks and assets of this project that an
-- unresolved projection names.
pub data IsOutbound (s : OutboundState) (m : SecurityDomainMigration) (now : Text)
    : Text → Type 0 where
  by_fence :
      (key : Text) (f : OutboundProjectionFence)
      → IsIn (key, f) s.outbound_projection_fences
      → is_active m now f ≡ true
      → IsOutbound s m now f.owner_node_id
  by_operation :
      (key : Text) (op : IntegrationOperation) (x : Subject)
      → IsIn (key, op) s.operations
      → is_unresolved op ≡ true
      → subject_of s op ≡ some x
      → (x.project_id == m.project_id) ≡ true
      → IsOutbound s m now x.owner_node_id

module _ (s : OutboundState) (m : SecurityDomainMigration) (now : Text) where
  subject-Below :
      (x : Subject)
      → (x.project_id == m.project_id) ≡ true
      → Below s.nodes m.project_id m.root_node_id x.owner_node_id
      → subject_blocks s.nodes m (some x) ≡ true
  unfolding subject_blocks
  subject-Below x own chain =
      let met = Below-meets s.nodes m.project_id m.root_node_id x.owner_node_id chain in
      ground arith

  -- When the answer is no, nothing is active, or the two loops found nothing.
  quiet-loops :
      has_active_fence_or_unresolved_operation_in_migration_scope s m now ≡ false
      → ((any (λ entry. is_active m now entry.1) s.outbound_projection_fences ≡ false)
          × (any (λ entry. is_unresolved entry.1) s.operations ≡ false))
        ⊎ ((any (fence_blocks s m now) s.outbound_projection_fences ≡ false)
            × (any (operation_blocks s m) s.operations ≡ false))
  unfolding has_active_fence_or_unresolved_operation_in_migration_scope
  quiet-loops quiet = ground arith

  fence-off :
      (key : Text) (f : OutboundProjectionFence)
      → IsIn (key, f) s.outbound_projection_fences
      → is_active m now f ≡ true
      → Below s.nodes m.project_id m.root_node_id f.owner_node_id
      → has_active_fence_or_unresolved_operation_in_migration_scope s m now ≡ false
      → ⊥
  fence-off key f there active chain quiet = elim (quiet-loops quiet) [
    | inl (fences, operations) ↦
        let off = none_of (λ entry. is_active m now entry.1) (key, f) _ fences there in
        true_not_false (sym active ∙ off)
    | inr (fences, operations) ↦
        let off = none_of (fence_blocks s m now) (key, f) _ fences there in
        let met = Below-meets s.nodes m.project_id m.root_node_id f.owner_node_id chain in
        ground arith
  ]

  operation-off :
      (key : Text) (op : IntegrationOperation) (x : Subject)
      → IsIn (key, op) s.operations
      → is_unresolved op ≡ true
      → subject_of s op ≡ some x
      → (x.project_id == m.project_id) ≡ true
      → Below s.nodes m.project_id m.root_node_id x.owner_node_id
      → has_active_fence_or_unresolved_operation_in_migration_scope s m now ≡ false
      → ⊥
  operation-off key op x there open_op named own chain quiet = elim (quiet-loops quiet) [
    | inl (fences, operations) ↦
        let off = none_of (λ entry. is_unresolved entry.1) (key, op) _ operations there in
        true_not_false (sym open_op ∙ off)
    | inr (fences, operations) ↦
        let off = none_of (operation_blocks s m) (key, op) _ operations there in
        let blocks : subject_blocks s.nodes m (subject_of s op) ≡ true =
          ap (subject_blocks s.nodes m) named ∙ subject-Below x own chain in
        ground arith
  ]

-- The answer is yes as long as something of the migration's part is on its way out: a node that is
-- the migration's root or below it owns the object of an unresolved projection of the project, or a
-- fence of the project that has not expired.
pub outbound-blocks :
    (s : OutboundState) (m : SecurityDomainMigration) (now node : Text)
    → IsOutbound s m now node
    → Below s.nodes m.project_id m.root_node_id node
    → has_active_fence_or_unresolved_operation_in_migration_scope s m now ≡ true
outbound-blocks s m now node out chain =
    elim (Bool-cases (has_active_fence_or_unresolved_operation_in_migration_scope s m now)) [
      | inl busy ↦ busy
      | inr quiet ↦ absurd (refute out chain quiet)
    ]
  where
    refute :
        {here : Text}
        → IsOutbound s m now here
        → Below s.nodes m.project_id m.root_node_id here
        → has_active_fence_or_unresolved_operation_in_migration_scope s m now ≡ false
        → ⊥
    refute (by_fence key f there active) below quiet =
        fence-off s m now key f there active below quiet
    refute (by_operation key op x there open_op named own) below quiet =
        operation-off s m now key op x there open_op named own below quiet
