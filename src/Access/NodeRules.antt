-- ===== src/Access/NodeRules.antt =====
-- What a positive answer of the access rules on nodes guarantees.
use project_process_map.Base.{
  ◌≡◌, ◌⊎◌, ◌∙◌, sym, ap, and_split, inl, inr, refl, Option, none, some, Bool, true, ◌==◌,
  Bool-cases, arith, eq_of,
}
use project_process_map.Base.Equality.{option_eq, list_eq, nat_eq}
use project_process_map.Base.Dates.{DateApi}
use project_process_map.Base.Tables.{get}
use project_process_map.Base.Text.{Text}
use project_process_map.Projects.{
  kind_eq, role_eq, Principal, ProjectMembership, ProjectNode, user, project_manager,
  is_node_leader,
}
use project_process_map.Security.Access.{
  contribute, edit, manage_access, capability_eq, active, status_eq,
}
use project_process_map.Store.{Directory}
use project_process_map.Access.{Query, is_manager, is_member, leads}
use project_process_map.Access.Rules.{migrations_only_narrow}
use project_process_map.Access.Nodes.{
  NodeOrId, by_id, by_node, node_id, is_fresh, is_active_user, role_allows, on_node,
  can_access_project_node, plain_step, migration_step, node_reference,
  can_access_project_node_during_migration,
}

-- A node that is handed over has the place, the leader, the version and the deletion of the stored
-- one; an identifier says nothing of them.
abbrev pub IsSameNode : NodeOrId → ProjectNode → Type 0
IsSameNode (by_id id) node = Unit {0}
IsSameNode (by_node given) node =
    (given.project_id ≡ node.project_id)
    × (given.security_domain_id ≡ node.security_domain_id)
    × (given.security_epoch ≡ node.security_epoch)
    × (given.leader_principal_id ≡ node.leader_principal_id)
    × (given.version ≡ node.version)
    × (given.deleted_at_utc ≡ node.deleted_at_utc)

-- The stored node that the answer is about, with who asks for it.
pub data IsOpenNode (s : Directory) (q : Query) (given : NodeOrId) : Type 0 where
  is_open_node :
      (node : ProjectNode) (p : Principal) (m : ProjectMembership)
      → get s.nodes (node_id given) ≡ some node
      → node.deleted_at_utc ≡ none
      → IsSameNode given node
      → get s.principals q.principal_id ≡ some p
      → (p.status ≡ active) × (p.kind ≡ user)
      → q.membership ≡ some m
      → (m.status ≡ active) × (m.project_id ≡ node.project_id)
      → (q.capability ≡ manage_access → m.role ≡ project_manager)
      → (q.capability ≡ edit
          → (m.role ≡ project_manager) ⊎ (node.leader_principal_id ≡ some q.principal_id))
      → (q.capability ≡ contribute
          → (node.leader_principal_id ≡ none)
            ⊎ ((m.role ≡ project_manager) ⊎ (node.leader_principal_id ≡ some q.principal_id)))
      → IsOpenNode s q given

fresh-IsSameNode :
    (given : NodeOrId) (node : ProjectNode) → is_fresh given node ≡ true → IsSameNode given node
unfolding is_fresh
fresh-IsSameNode (by_id id) node h = tt
fresh-IsSameNode (by_node given) node h = (
  eq_of given.project_id node.project_id (ground arith),
  eq_of given.security_domain_id node.security_domain_id (ground arith),
  eq_of given.security_epoch node.security_epoch (ground arith),
  eq_of given.leader_principal_id node.leader_principal_id (ground arith),
  eq_of given.version node.version (ground arith),
  eq_of given.deleted_at_utc node.deleted_at_utc (ground arith),
)

active_user :
    (principal : Option Principal)
    → is_active_user principal ≡ true
    → (p : Principal) × (principal ≡ some p) × ((p.status ≡ active) × (p.kind ≡ user))
active_user none h = absurd (let never : ⊥ = cc in never)
active_user (some p) h =
    let (status, kind) = and_split _ _ h in
    (p, refl, (eq_of p.status active status, eq_of p.kind user kind))

member :
    (membership : Option ProjectMembership) (project : Text)
    → is_member membership project ≡ true
    → (m : ProjectMembership) × (membership ≡ some m)
      × ((m.status ≡ active) × (m.project_id ≡ project))
member none project h = absurd (let never : ⊥ = cc in never)
member (some m) project h =
    let (status, same) = and_split _ _ h in
    (m, refl, (eq_of m.status active status, eq_of m.project_id project same))

manager :
    (membership : Option ProjectMembership) (m : ProjectMembership)
    → membership ≡ some m
    → is_manager membership ≡ true
    → m.role ≡ project_manager
manager membership m e h = eq_of m.role project_manager (sym (ap is_manager e) ∙ h)

leader :
    (membership : Option ProjectMembership) (m : ProjectMembership) (node : ProjectNode)
    (principal : Text)
    → membership ≡ some m
    → leads membership node principal ≡ true
    → (m.role ≡ project_manager) ⊎ (node.leader_principal_id ≡ some principal)
unfolding is_node_leader
leader membership m node principal e h = elim (Bool-cases (is_manager membership)) [
  | inl rules ↦ inl (manager membership m e rules)
  | inr rules_not ↦ inr (eq_of node.leader_principal_id (some principal) (ground arith))
]

role_allows-cases :
    (q : Query) (node : ProjectNode) (m : ProjectMembership)
    → q.membership ≡ some m
    → role_allows q node ≡ true
    → (q.capability ≡ manage_access → m.role ≡ project_manager)
      × (q.capability ≡ edit
          → (m.role ≡ project_manager) ⊎ (node.leader_principal_id ≡ some q.principal_id))
      × (q.capability ≡ contribute
          → (node.leader_principal_id ≡ none)
            ⊎ ((m.role ≡ project_manager) ⊎ (node.leader_principal_id ≡ some q.principal_id)))
unfolding role_allows
role_allows-cases q node m e h = (
  λ c. manager q.membership m e (ground arith),
  λ c. leader q.membership m node q.principal_id e (ground arith),
  λ c. elim (Bool-cases (node.leader_principal_id == none)) [
    | inl nobody ↦ inl (eq_of node.leader_principal_id none nobody)
    | inr somebody ↦ inr (leader q.membership m node q.principal_id e (ground arith))
  ],
)

on_node-IsOpenNode :
    (s : Directory) (last : ProjectNode → Bool) (q : Query) (given : NodeOrId)
    (stored : Option ProjectNode)
    → get s.nodes (node_id given) ≡ stored
    → is_active_user (get s.principals q.principal_id) ≡ true
    → on_node last q given stored ≡ true
    → IsOpenNode s q given
unfolding on_node
on_node-IsOpenNode s last q given none found live h = absurd (let never : ⊥ = cc in never)
on_node-IsOpenNode s last q given (some node) found live h =
    let (p, there, person) = active_user (get s.principals q.principal_id) live in
    let (m, joined, membership) = member q.membership node.project_id (ground arith) in
    let (manages, edits, contributes) = role_allows-cases q node m joined (ground arith) in
    is_open_node node p m found (eq_of node.deleted_at_utc none (ground arith))
      (fresh-IsSameNode given node (ground arith)) there person joined membership manages edits
      contributes

-- Whoever is let at a node, with or without a migration about, is an active user and an active member of the node's project; the stored node is not deleted, and a node that is handed over has the same project, domain, epoch, leader, version and deletion; access is managed by managers only, a node is edited by managers and its leader only, and so is a contribution to a node that has a leader.
pub node_access-IsOpenNode :
    (d : DateApi) (s : Directory) (q : Query) (given : NodeOrId)
    → (can_access_project_node d s q given ≡ true)
      ⊎ (can_access_project_node_during_migration d s q given ≡ true)
    → IsOpenNode s q given
unfolding can_access_project_node can_access_project_node_during_migration
node_access-IsOpenNode d s q given (inl h) =
    on_node-IsOpenNode s (plain_step d s q) q given (get s.nodes (node_id given)) refl
      (ground arith) (ground arith)
node_access-IsOpenNode d s q given (inr h) =
    on_node-IsOpenNode s (migration_step d s q) q given (get s.nodes (node_id given)) refl
      (ground arith) (ground arith)

on_node-weaken :
    (first last : ProjectNode → Bool) (q : Query) (given : NodeOrId) (stored : Option ProjectNode)
    → ((node : ProjectNode) → first node ≡ true → last node ≡ true)
    → on_node first q given stored ≡ true
    → on_node last q given stored ≡ true
unfolding on_node
on_node-weaken first last q given none imp h = h
on_node-weaken first last q given (some node) imp h =
    let answer = imp node (ground arith) in ground arith

-- The rule on nodes that knows of migrations never allows what the plain rule on nodes refuses.
node_migrations_only_narrow :
    (d : DateApi) (s : Directory) (q : Query) (given : NodeOrId)
    → can_access_project_node_during_migration d s q given ≡ true
    → can_access_project_node d s q given ≡ true
unfolding can_access_project_node can_access_project_node_during_migration
node_migrations_only_narrow d s q given h =
    let answer =
      on_node-weaken (migration_step d s q) (plain_step d s q) q given (get s.nodes (node_id given))
        (λ node e. let plain = migrations_only_narrow d s q (node_reference node) e in ground arith)
        (ground arith) in
    ground arith
