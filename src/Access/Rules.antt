-- ===== src/Access/Rules.antt =====
-- What a positive answer of the access rules of
-- packages/application/src/access/project-security.ts guarantees.
use project_process_map.Base.{
  ◌≡◌, inl, inr, refl, sym, subst, Option, none, some, List, [], ◌∷◌, true, ◌==◌, Bool-cases, arith,
  eq_of,
}
use project_process_map.Base.Equality.{option_eq, list_eq, nat_eq}
use project_process_map.Base.Dates.{DateApi}
use project_process_map.Base.Tables.{get}
use project_process_map.Base.Text.{Text}
use project_process_map.Projects.{Principal, role_eq, ProjectNode}
use project_process_map.Security.Access.{
  manage_access, capability_eq, active, status_eq, SecurityDomain, grant_allows,
}
use project_process_map.Security.Migration.{SecurityDomainMigration, state_eq}
use project_process_map.Store.{Directory}
use project_process_map.Access.{
  Query, is_manager, is_member, domain_allows, in_domain, can_access_project_object,
  SecurityOwnedObjectReference, relevant_migrations, by_migrations, is_at_end, is_live_principal,
  owner_allows, can_access_project_object_during_migration,
}
use project_process_map.Access.Holding.{candidates, endpoint-object, across-both}

-- The principal is there and active, is an active member of the project, and the object's owner node
-- is there, live, of the same project, domain and epoch.
pub data IsGrounded (s : Directory) (q : Query) (o : SecurityOwnedObjectReference) : Type 0 where
  is_grounded :
      (p : Principal) (node : ProjectNode)
      → get s.principals q.principal_id ≡ some p
      → p.status ≡ active
      → get s.nodes o.owner_node_id ≡ some node
      → node.deleted_at_utc ≡ none
      → node.project_id ≡ o.project_id
      → node.security_domain_id ≡ o.security_domain_id
      → node.security_epoch ≡ o.security_epoch
      → is_member q.membership o.project_id ≡ true
      → IsGrounded s q o

project_access-is_member :
    (d : DateApi) (s : Directory) (q : Query) (project : Text) (domain : Option Text)
    → can_access_project_object d s q project domain ≡ true
    → is_member q.membership project ≡ true
unfolding can_access_project_object
project_access-is_member d s q project domain h = ground arith

by_migrations-is_member :
    (d : DateApi) (s : Directory) (q : Query) (o : SecurityOwnedObjectReference)
    (found : Option (List SecurityDomainMigration))
    → by_migrations d s q o found ≡ true
    → is_member q.membership o.project_id ≡ true
unfolding by_migrations
by_migrations-is_member d s q o none h = absurd (let never : ⊥ = ground arith in never)
by_migrations-is_member d s q o (some []) h =
    project_access-is_member d s q o.project_id o.security_domain_id h
by_migrations-is_member d s q o (some (m ∷ [])) h =
    let (at_end, source, target) = across-both d s q o m h in
    project_access-is_member d s q o.project_id m.source_security_domain_id
      (endpoint-object d s q o.project_id m.source_security_domain_id source)
by_migrations-is_member d s q o (some (m ∷ n ∷ ms)) h =
    absurd (let never : ⊥ = ground arith in never)

owner_allows-IsGrounded :
    (s : Directory) (q : Query) (o : SecurityOwnedObjectReference) (p : Option Principal)
    (owner : Option ProjectNode)
    → get s.principals q.principal_id ≡ p
    → get s.nodes o.owner_node_id ≡ owner
    → is_live_principal p ≡ true
    → owner_allows q o owner ≡ true
    → is_member q.membership o.project_id ≡ true
    → IsGrounded s q o
unfolding owner_allows
owner_allows-IsGrounded s q o none owner e f h k m = absurd (let never : ⊥ = cc in never)
owner_allows-IsGrounded s q o (some p) none e f h k m = absurd (let never : ⊥ = cc in never)
owner_allows-IsGrounded s q o (some p) (some node) e f h k m =
    is_grounded p node e (eq_of p.status active h) f (eq_of node.deleted_at_utc none (ground arith))
      (eq_of node.project_id o.project_id (ground arith))
      (eq_of node.security_domain_id o.security_domain_id (ground arith))
      (eq_of node.security_epoch o.security_epoch (ground arith)) m

-- Whoever is let at an object, at any capability and also while a migration moves it, is an active principal and an active member of the object's project, and the object's owner node is there, not deleted, and of the object's project, security domain and security epoch.
pub access-IsGrounded :
    (d : DateApi) (s : Directory) (q : Query) (o : SecurityOwnedObjectReference)
    → can_access_project_object_during_migration d s q o ≡ true
    → IsGrounded s q o
unfolding can_access_project_object_during_migration
access-IsGrounded d s q o h =
    owner_allows-IsGrounded s q o (get s.principals q.principal_id) (get s.nodes o.owner_node_id)
      refl refl (ground arith) (ground arith)
      (by_migrations-is_member d s q o
        (relevant_migrations s o.project_id o.owner_node_id (candidates s o)) (ground arith))

at_end-object :
    (d : DateApi) (s : Directory) (q : Query) (o : SecurityOwnedObjectReference)
    (m : SecurityDomainMigration)
    → is_at_end m o ≡ true
    → can_access_project_object d s q o.project_id m.source_security_domain_id ≡ true
    → can_access_project_object d s q o.project_id m.target_security_domain_id ≡ true
    → can_access_project_object d s q o.project_id o.security_domain_id ≡ true
at_end-object d s q o m at_end source target =
    elim (Bool-cases (o.security_domain_id == m.source_security_domain_id)) [
      | inl first ↦ rw (eq_of o.security_domain_id m.source_security_domain_id first) source
      | inr other ↦
          let second : (o.security_domain_id == m.target_security_domain_id) ≡ true =
            ground arith in
          rw (eq_of o.security_domain_id m.target_security_domain_id second) target
    ]

by_migrations-object :
    (d : DateApi) (s : Directory) (q : Query) (o : SecurityOwnedObjectReference)
    (found : Option (List SecurityDomainMigration))
    → by_migrations d s q o found ≡ true
    → can_access_project_object d s q o.project_id o.security_domain_id ≡ true
unfolding by_migrations
by_migrations-object d s q o none h = absurd (let never : ⊥ = ground arith in never)
by_migrations-object d s q o (some []) h = h
by_migrations-object d s q o (some (m ∷ [])) h =
    let (at_end, source, target) = across-both d s q o m h in
    at_end-object d s q o m at_end
      (endpoint-object d s q o.project_id m.source_security_domain_id source)
      (endpoint-object d s q o.project_id m.target_security_domain_id target)
by_migrations-object d s q o (some (m ∷ n ∷ ms)) h = absurd (let never : ⊥ = ground arith in never)

-- The rule that knows of migrations never allows what the plain rule refuses for the object's own project and security domain.
pub migrations_only_narrow :
    (d : DateApi) (s : Directory) (q : Query) (o : SecurityOwnedObjectReference)
    → can_access_project_object_during_migration d s q o ≡ true
    → can_access_project_object d s q o.project_id o.security_domain_id ≡ true
unfolding can_access_project_object_during_migration
migrations_only_narrow d s q o h =
    by_migrations-object d s q o
      (relevant_migrations s o.project_id o.owner_node_id (candidates s o)) (ground arith)

-- In a domain that is there: the domain is of the project, live and without a parent, the
-- principal's grant allows the capability at that time, and only a manager manages access.
pub data IsGranted (d : DateApi) (s : Directory) (q : Query) (project : Text)
    (domain : SecurityDomain) : Type 0 where
  is_granted :
      domain.project_id ≡ project
      → domain.deleted_at_utc ≡ none
      → domain.parent_security_domain_id ≡ none
      → grant_allows d (s.security_grants domain.id q.principal_id) q.capability q.at_utc ≡ true
      → (q.capability ≡ manage_access → is_manager q.membership ≡ true)
      → IsGranted d s q project domain

project_access-domain :
    (d : DateApi) (s : Directory) (q : Query) (project domain_id : Text) (domain : SecurityDomain)
    → can_access_project_object d s q project (some domain_id) ≡ true
    → s.security_domains domain_id ≡ some domain
    → domain_allows d s q project domain_id (some domain) ≡ true
unfolding can_access_project_object in_domain
project_access-domain d s q project domain_id domain h there =
    let answer : domain_allows d s q project domain_id (s.security_domains domain_id) ≡ true =
      ground arith in
    subst (λ x. domain_allows d s q project domain_id x ≡ true) there answer

domain_allows-IsGranted :
    (d : DateApi) (s : Directory) (q : Query) (project domain_id : Text) (domain : SecurityDomain)
    → domain_allows d s q project domain_id (some domain) ≡ true
    → IsGranted d s q project domain
unfolding domain_allows
domain_allows-IsGranted d s q project domain_id domain h =
    is_granted (eq_of domain.project_id project (ground arith))
      (eq_of domain.deleted_at_utc none (ground arith))
      (eq_of domain.parent_security_domain_id none (ground arith)) (ground arith)
      (λ e. ground arith)

-- An object in a security domain that is there is open, with or without a migration, only to a principal whose grant in that domain allows the capability at that time; the domain is then of the object's project, live and without a parent, and access is managed by a project manager only.
pub access-IsGranted :
    (d : DateApi) (s : Directory) (q : Query) (o : SecurityOwnedObjectReference) (domain_id : Text)
    (domain : SecurityDomain)
    → can_access_project_object_during_migration d s q o ≡ true
    → o.security_domain_id ≡ some domain_id
    → s.security_domains domain_id ≡ some domain
    → IsGranted d s q o.project_id domain
access-IsGranted d s q o domain_id domain h named there =
    domain_allows-IsGranted d s q o.project_id domain_id domain (
      project_access-domain d s q o.project_id domain_id domain
        (rw (sym named) (migrations_only_narrow d s q o h)) there)
