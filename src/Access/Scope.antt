-- ===== src/Access/Scope.antt =====
-- The walk to the root of a migration (`migrationScope` of
-- packages/application/src/access/project-security.ts): it ends, and it says `inside` exactly when
-- the migration's root is an ancestor of the object's node, or the node itself.
use project_process_map.Base.{
  ℕ, zero, suc, ◌<◌, ◌≡◌, ◌↔◌, inl, inr, refl, ap, subst, Option, none, some, List, [], ◌∷◌, true,
  false, ◌==◌, Bool-cases, Option-cases, arith, length, eq_of,
}
use project_process_map.Base.Equality.{list_eq, nat_eq}
use project_process_map.Base.Sets.{contains}
use project_process_map.Base.Tables.{get, outside, outside-lt, outside-le-length}
use project_process_map.Base.Dates.{is_some}
use project_process_map.Base.Text.{Text}
use project_process_map.Projects.{ProjectNode}
use project_process_map.Store.{Directory}
use project_process_map.Access.{MigrationScope, inside, scope_walk, or_invalid, migration_scope}

module _ (nodes : List (Text × ProjectNode)) (project root : Text) where
  -- With more fuel than there are nodes left to see, the walk ends by one of its tests.
  scope_walk_total :
      (fuel : ℕ) (visited : List Text) (current : Option Text)
      → outside nodes visited < fuel
      → is_some (scope_walk fuel nodes project root visited current) ≡ true
  unfolding scope_walk
  scope_walk_total zero visited current h = absurd (omega arith)
  scope_walk_total (suc fuel) visited none h = refl
  scope_walk_total (suc fuel) visited (some id) h = elim (Bool-cases (contains visited id)) [
    | inl seen ↦ ground arith
    | inr new ↦ elim (Option-cases (get nodes id)) [
      | inl missing ↦ ground arith
      | inr (node, found) ↦
          let less = outside-lt nodes visited id node found new in
          let ih = scope_walk_total fuel (id ∷ visited) node.parent_id (omega arith) in ground arith
    ]
  ]

  -- A chain of parents from a node up to the root, all of them in the project.
  pub data Below : Text → Type 0 where
    at_root :
        {id : Text} (node : ProjectNode)
        → get nodes id ≡ some node
        → (node.project_id == project) ≡ true
        → (node.id == root) ≡ true
        → Below id
    under :
        {id : Text} (node : ProjectNode) (parent : Text)
        → get nodes id ≡ some node
        → (node.project_id == project) ≡ true
        → (node.id == root) ≡ false
        → node.parent_id ≡ some parent
        → Below parent
        → Below id

  walk_sound :
      (fuel : ℕ) (visited : List Text) (current : Option Text)
      → scope_walk fuel nodes project root visited current ≡ some inside
      → (id : Text) × (current ≡ some id) × Below id
  unfolding scope_walk
  walk_sound zero visited current h = absurd (let never : ⊥ = cc in never)
  walk_sound (suc fuel) visited none h = absurd (let never : ⊥ = cc in never)
  walk_sound (suc fuel) visited (some id) h = elim (Option-cases (get nodes id)) [
    | inl missing ↦ absurd (let never : ⊥ = ground arith in never)
    | inr (node, found) ↦ elim (Bool-cases (node.id == root)) [
      | inl at_top ↦ (id, refl, at_root node found (ground arith) at_top)
      | inr lower ↦
          let (parent, up, chain) = walk_sound fuel (id ∷ visited) node.parent_id (ground arith) in
          (id, refl, under node parent found (ground arith) lower up chain)
    ]
  ]

  height : {id : Text} → Below id → ℕ
  height (at_root node found here top) = 0
  height (under node parent found here lower up chain) = suc (height chain)

  -- Two chains from a node are equally long.
  height_unique : {a b : Text} → a ≡ b → (p : Below a) (q : Below b) → height p ≡ height q
  unfolding height
  height_unique same (at_root n f h t) (at_root n' f' h' t') = refl
  height_unique same (at_root n f h t) (under n' p' f' h' l' u' c') =
      absurd (let never : ⊥ = ground arith in never)
  height_unique same (under n p f h l u c) (at_root n' f' h' t') =
      absurd (let never : ⊥ = ground arith in never)
  height_unique same (under n p f h l u c) (under n' p' f' h' l' u' c') =
      let parents : p ≡ p' = ground arith in ap suc (height_unique parents c c')

  -- What the walk has seen lies below where it stands.
  IsBehind : List Text → ℕ → Type 0
  IsBehind visited here =
      (v : Text)
      → contains visited v ≡ true
      → (w : Text) × (w ≡ v) × (c : Below w) × (here < height c)

  nothing-IsBehind : (here : ℕ) → IsBehind [] here
  unfolding IsBehind
  nothing-IsBehind here v there = absurd (let never : ⊥ = cc in never)

  IsBehind-step :
      (visited : List Text) (id : Text) (n : ℕ) (c : Below id)
      → n < height c
      → IsBehind visited (height c)
      → IsBehind (id ∷ visited) n
  unfolding IsBehind
  IsBehind-step visited id n c less behind v there = elim (Bool-cases (id == v)) [
    | inl same ↦ (id, eq_of id v same, c, less)
    | inr differ ↦
        let before : contains visited v ≡ true = ground arith in
        let (w, e, d, far) = behind v before in (w, e, d, omega arith)
  ]

  new_here :
      (visited : List Text) (id : Text) (chain : Below id)
      → IsBehind visited (height chain)
      → contains visited id ≡ false
  unfolding IsBehind
  new_here visited id chain behind = elim (Bool-cases (contains visited id)) [
    | inl seen ↦
        let (w, e, d, far) = behind id seen in
        let level = height_unique e d chain in absurd (omega arith)
    | inr new ↦ new
  ]

  walk_complete :
      (fuel : ℕ) (visited : List Text) (id : Text) (chain : Below id)
      → IsBehind visited (height chain)
      → outside nodes visited < fuel
      → scope_walk fuel nodes project root visited (some id) ≡ some inside
  unfolding scope_walk height
  walk_complete zero visited id chain behind h = absurd (omega arith)
  walk_complete (suc fuel) visited id (at_root node found here top) behind h =
      let new = new_here visited id (at_root node found here top) behind in ground arith
  walk_complete (suc fuel) visited id (under node parent found here lower up chain) behind h =
      let all = under node parent found here lower up chain in
      let new = new_here visited id all behind in
      let less = outside-lt nodes visited id node found new in
      let rest =
        walk_complete fuel (id ∷ visited) parent chain
          (IsBehind-step visited id (height chain) all (omega arith) behind) (omega arith) in
      ground arith

or_invalid-inside : (r : Option MigrationScope) → or_invalid r ≡ inside → r ≡ some inside
or_invalid-inside none h = absurd (let never : ⊥ = cc in never)
or_invalid-inside (some scope) h = ap some h

-- The walk to the root of a migration ends within one round more than there are nodes: its answer is never the default for spent fuel.
pub migration_scope_total :
    (s : Directory) (project owner_node root : Text)
    → scope_walk (suc (length s.nodes)) s.nodes project root [] (some owner_node)
      ≡ some (migration_scope s project owner_node root)
unfolding migration_scope
migration_scope_total s project owner_node root =
    let enough = outside-le-length s.nodes [] in
    let ends =
      scope_walk_total s.nodes project root (suc (length s.nodes)) [] (some owner_node)
        (omega arith) in
    or_invalid-some (scope_walk (suc (length s.nodes)) s.nodes project root [] (some owner_node))
      ends
  where
    or_invalid-some : (r : Option MigrationScope) → is_some r ≡ true → r ≡ some (or_invalid r)
    or_invalid-some none h = absurd (let never : ⊥ = cc in never)
    or_invalid-some (some scope) h = refl

-- A migration holds an object exactly when a chain of parents, all of them nodes of the project, leads from the object's owner node up to the root of the migration.
pub migration_scope_inside :
    (s : Directory) (project owner_node root : Text)
    → (migration_scope s project owner_node root ≡ inside) ↔ Below s.nodes project root owner_node
unfolding migration_scope
migration_scope_inside s project owner_node root =
    let enough = outside-le-length s.nodes [] in
    (
      λ h.
          let (id, same, chain) =
            walk_sound s.nodes project root (suc (length s.nodes)) [] (some owner_node)
              (or_invalid-inside _ h) in
          let here : id ≡ owner_node = ground arith in
          subst (Below s.nodes project root) here chain,
      λ chain. ap or_invalid (
          walk_complete s.nodes project root (suc (length s.nodes)) [] owner_node chain
            (nothing-IsBehind s.nodes project root (height s.nodes project root chain))
            (omega arith)),
    )
