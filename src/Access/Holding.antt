-- ===== src/Access/Holding.antt =====
-- An object while a migration that has begun holds it
-- (`canAccessProjectObjectDuringMigration` of
-- packages/application/src/access/project-security.ts).
use project_process_map.Base.{
  ◌≡◌, ◌⊎◌, inl, inr, refl, sym, ap, ◌∙◌, subst, Option, none, some, List, [], ◌∷◌, Bool, true, not,
  ◌&&◌, ◌==◌, Bool-cases, Option-cases, arith, eq_of, IsIn, at_head, in_tail, not_in_nil,
  in_singleton,
}
use project_process_map.Base.Equality.{option_eq, list_eq, nat_eq}
use project_process_map.Base.Dates.{DateApi}
use project_process_map.Base.Sets.{contains}
use project_process_map.Base.Text.{Text}
use project_process_map.Projects.{role_eq}
use project_process_map.Security.Access.{capability_eq, status_eq}
use project_process_map.Security.Migration.{
  SecurityDomainMigration, is_moving, committed, rolled_back, state_eq,
}
use project_process_map.Store.{Directory, keep, list_recoverable}
use project_process_map.Access.{
  Query, can_access_project_object, SecurityOwnedObjectReference, MigrationScope, inside, outside,
  invalid, migration_scope, relevant_migrations, can_access_migration_endpoint, across_migration,
  by_migrations, is_at_end, can_access_project_object_during_migration,
}
use project_process_map.Access.Scope.{Below, migration_scope_inside}

-- A migration that holds the object: one of the project's, not ended and not only prepared, whose
-- root the object's owner node is or stands below.
pub data IsHolding (s : Directory) (o : SecurityOwnedObjectReference) (m : SecurityDomainMigration)
    : Type 0 where
  is_holding :
      IsIn m s.security_migrations
      → (m.project_id == o.project_id) ≡ true
      → is_moving m.state ≡ true
      → Below s.nodes o.project_id m.root_node_id o.owner_node_id
      → IsHolding s o m

keep-IsIn :
    {A : Type 0} (p : A → Bool) (xs : List A) (a : A) → IsIn a xs → p a ≡ true → IsIn a (keep p xs)
keep-IsIn p [] a m h = absurd (not_in_nil m)
keep-IsIn p (x ∷ xs) a (at_head e) h = let q : p x ≡ true = rw (sym e) h in rw q (at_head e)
keep-IsIn p (x ∷ xs) a (in_tail m) h =
    let ih = keep-IsIn p xs a m h in
    elim (Bool-cases (p x)) [ inl q ↦ rw q (in_tail ih) | inr q ↦ rw q ih ]

is_moving-recoverable :
    (m : SecurityDomainMigration)
    → is_moving m.state ≡ true
    → not (contains (committed ∷ rolled_back ∷ []) m.state) ≡ true
is_moving-recoverable m h = ground arith

-- What the loop does with one migration more.
relevant_step :
    (s : Directory) (project owner : Text) (n : SecurityDomainMigration)
    (ns found : List SecurityDomainMigration)
    → relevant_migrations s project owner (n ∷ ns) ≡ some found
    → ((migration_scope s project owner n.root_node_id ≡ inside)
        × (rest : List SecurityDomainMigration) × (relevant_migrations s project owner ns
            ≡ some rest)
        × (found ≡ n ∷ rest))
      ⊎ ((migration_scope s project owner n.root_node_id ≡ outside)
          × (relevant_migrations s project owner ns ≡ some found))
unfolding relevant_migrations
relevant_step s project owner n ns found e =
    elim (scope_cases (migration_scope s project owner n.root_node_id)) [
      | inl within ↦ elim (Option-cases (relevant_migrations s project owner ns)) [
        | inl nothing ↦ absurd (let never : ⊥ = ground arith in never)
        | inr (rest, there) ↦ inl (within, rest, there, ground arith)
      ]
      | inr (inl beyond) ↦ inr (beyond, ground arith)
      | inr (inr broken) ↦ absurd (let never : ⊥ = ground arith in never)
    ]
  where
    scope_cases : (r : MigrationScope) → (r ≡ inside) ⊎ ((r ≡ outside) ⊎ (r ≡ invalid))
    scope_cases inside = inl refl
    scope_cases outside = inr (inl refl)
    scope_cases invalid = inr (inr refl)

-- The loop keeps every migration that holds the owner node.
relevant-IsIn :
    (s : Directory) (project owner : Text) (ms found : List SecurityDomainMigration)
    (m : SecurityDomainMigration)
    → relevant_migrations s project owner ms ≡ some found
    → IsIn m ms
    → migration_scope s project owner m.root_node_id ≡ inside
    → IsIn m found
unfolding relevant_migrations
relevant-IsIn s project owner [] found m e i h = absurd (not_in_nil i)
relevant-IsIn s project owner (n ∷ ns) found m e (at_head same) h =
    let there = ap (λ (k : SecurityDomainMigration). k.root_node_id) same in
    elim (relevant_step s project owner n ns found e) [
      | inl (within, rest, some_rest, cons) ↦ subst (IsIn m) (sym cons) (at_head same)
      | inr (beyond, same_found) ↦ absurd (let never : ⊥ = ground arith in never)
    ]
relevant-IsIn s project owner (n ∷ ns) found m e (in_tail i) h =
    elim (relevant_step s project owner n ns found e) [
      | inl (within, rest, some_rest, cons) ↦
          subst (IsIn m) (sym cons)
            (in_tail (relevant-IsIn s project owner ns rest m some_rest i h))
      | inr (beyond, same_found) ↦ relevant-IsIn s project owner ns found m same_found i h
    ]

-- The migrations that `by_migrations` is given.
abbrev pub candidates : Directory → SecurityOwnedObjectReference → List SecurityDomainMigration
candidates s o = keep (λ m. m.project_id == o.project_id && is_moving m.state) (list_recoverable s)

holding-IsIn :
    (s : Directory) (o : SecurityOwnedObjectReference) (m : SecurityDomainMigration)
    (found : List SecurityDomainMigration)
    → IsHolding s o m
    → relevant_migrations s o.project_id o.owner_node_id (candidates s o) ≡ some found
    → IsIn m found
unfolding list_recoverable
holding-IsIn s o m found (is_holding there project moving below) e =
    relevant-IsIn s o.project_id o.owner_node_id (candidates s o) found m e
      (keep-IsIn (λ k. k.project_id == o.project_id && is_moving k.state) (list_recoverable s) m
        (keep-IsIn (λ k. not (contains (committed ∷ rolled_back ∷ []) k.state))
          s.security_migrations m there (is_moving-recoverable m moving))
        (rw project moving))
      ((migration_scope_inside s o.project_id o.owner_node_id m.root_node_id).1 below)

-- An answer by one migration that holds the object, which is then the only one there.
by_migrations-holding :
    (d : DateApi) (s : Directory) (q : Query) (o : SecurityOwnedObjectReference)
    (m : SecurityDomainMigration)
    → can_access_project_object_during_migration d s q o ≡ true
    → IsHolding s o m
    → (relevant_migrations s o.project_id o.owner_node_id (candidates s o) ≡ some (m ∷ []))
      × (across_migration d s q o m ≡ true)
unfolding can_access_project_object_during_migration by_migrations
by_migrations-holding d s q o m access h =
    go (relevant_migrations s o.project_id o.owner_node_id (candidates s o)) refl
  where
    go :
        (r : Option (List SecurityDomainMigration))
        → relevant_migrations s o.project_id o.owner_node_id (candidates s o) ≡ r
        → (relevant_migrations s o.project_id o.owner_node_id (candidates s o) ≡ some (m ∷ []))
          × (across_migration d s q o m ≡ true)
    go none e = absurd (let never : ⊥ = ground arith in never)
    go (some []) e = absurd (not_in_nil (holding-IsIn s o m [] h e))
    go (some (n ∷ [])) e =
        let same : m ≡ n = in_singleton (holding-IsIn s o m (n ∷ []) h e) in
        let answer : across_migration d s q o n ≡ true = ground arith in
        (e ∙ ap (λ k. some (k ∷ [])) (sym same), rw same answer)
    go (some (n ∷ k ∷ ks)) e = absurd (let never : ⊥ = ground arith in never)

pub endpoint-object :
    (d : DateApi) (s : Directory) (q : Query) (project : Text) (domain : Option Text)
    → can_access_migration_endpoint d s q project domain ≡ true
    → can_access_project_object d s q project domain ≡ true
unfolding can_access_migration_endpoint
endpoint-object d s q project domain h = ground arith

pub across-both :
    (d : DateApi) (s : Directory) (q : Query) (o : SecurityOwnedObjectReference)
    (m : SecurityDomainMigration)
    → across_migration d s q o m ≡ true
    → (is_at_end m o ≡ true)
      × (can_access_migration_endpoint d s q o.project_id m.source_security_domain_id ≡ true)
      × (can_access_migration_endpoint d s q o.project_id m.target_security_domain_id ≡ true)
unfolding across_migration
across-both d s q o m h =
    elim (Bool-cases (m.source_security_domain_id == m.target_security_domain_id)) [
      | inl same ↦
          let equal = eq_of m.source_security_domain_id m.target_security_domain_id same in
          let source : can_access_migration_endpoint d s q o.project_id m.source_security_domain_id
              ≡ true =
            ground arith in
          (ground arith, source, rw (sym equal) source)
      | inr differ ↦ (ground arith, ground arith, ground arith)
    ]

-- While a migration that has begun holds the object, an answer of yes means that the object stands at one of the migration's two ends and that the same query is allowed at both of its security domains.
pub access_at_both_ends :
    (d : DateApi) (s : Directory) (q : Query) (o : SecurityOwnedObjectReference)
    (m : SecurityDomainMigration)
    → can_access_project_object_during_migration d s q o ≡ true
    → IsHolding s o m
    → (is_at_end m o ≡ true)
      × (can_access_project_object d s q o.project_id m.source_security_domain_id ≡ true)
      × (can_access_project_object d s q o.project_id m.target_security_domain_id ≡ true)
access_at_both_ends d s q o m h holding =
    let (only, answer) = by_migrations-holding d s q o m h holding in
    let (at_end, source, target) = across-both d s q o m answer in
    (
      at_end,
      endpoint-object d s q o.project_id m.source_security_domain_id source,
      endpoint-object d s q o.project_id m.target_security_domain_id target,
    )

-- Two migrations that have begun and hold the same object are never both there when the answer is yes: they are one and the same record.
access_one_migration :
    (d : DateApi) (s : Directory) (q : Query) (o : SecurityOwnedObjectReference)
    (m n : SecurityDomainMigration)
    → can_access_project_object_during_migration d s q o ≡ true
    → IsHolding s o m
    → IsHolding s o n
    → m ≡ n
access_one_migration d s q o m n h holding_m holding_n =
    let (only, answer) = by_migrations-holding d s q o m h holding_m in
    sym (in_singleton (holding-IsIn s o n (m ∷ []) holding_n only))
