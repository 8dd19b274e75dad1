-- ===== src/Ownership/Moves.antt =====
-- What the moves of an object between two security domains guarantee
-- (packages/adapters/src/memory/persistence.ts).
use project_process_map.Base.{
  ℕ, ◌+◌, ◌≡◌, ◌≢◌, refl, sym, ap, ◌∙◌, subst, true, false, Option, some, List, arith, eq_refl,
  and_split,
}
use project_process_map.Base.Equality.{option_eq, list_eq, nat_eq, eq_of}
use project_process_map.Base.Results.{ok, >>=-eq-ok}
use project_process_map.Base.Tables.{get, put, get-put_self}
use project_process_map.Base.Text.{Text}
use project_process_map.Store.{Directory}
use project_process_map.Access.{inside, migration_scope}
use project_process_map.Access.Scope.{Below, migration_scope_inside}
use project_process_map.Security.Migration.{SecurityDomainMigration, active, state_eq}
use project_process_map.Ownership.{
  Owned, has_no_ends, stands_at, migration_for_object_write, migration_for_object_rollback,
  assert_migration_scope, move_object, migrate_security_ownership, rollback_security_ownership,
}

write-ok :
    (migrations : List (Text × SecurityDomainMigration)) (id : Text) {m : SecurityDomainMigration}
    → migration_for_object_write migrations id ≡ ok m
    → (get migrations id ≡ some m) × (m.state ≡ active) × (has_no_ends m ≡ false)
unfolding migration_for_object_write
write-ok migrations id h = ground arith

rollback-of_write :
    (migrations : List (Text × SecurityDomainMigration)) (id : Text) (m : SecurityDomainMigration)
    → get migrations id ≡ some m
    → m.state ≡ active
    → has_no_ends m ≡ false
    → migration_for_object_rollback migrations id ≡ ok m
unfolding migration_for_object_rollback
rollback-of_write migrations id m found running ends = rw found (rw running (rw ends refl))

no_ends :
    (m : SecurityDomainMigration)
    → m.target_security_domain_id ≡ m.source_security_domain_id
    → m.target_security_epoch ≡ m.source_security_epoch
    → has_no_ends m ≡ true
no_ends m domain epoch = rw domain (
    rw epoch (
      rw (eq_refl m.source_security_domain_id)
        (rw (eq_refl m.source_security_epoch) (ground arith))))

module _ {T : Type 0} ⦃owned : Owned T⦄ where
  module _ (s : Directory) (m : SecurityDomainMigration) (table : List (Text × T)) (id : Text)
      (expected : ℕ) (domain : Option Text) (epoch : ℕ) (target : Option Text) (late : ℕ) where
    move-ok :
        {u : T} {after : List (Text × T)}
        → move_object s m table id expected domain epoch target late ≡ ok (u, after)
        → (x : T) × (get table id ≡ some x)
          × ((owned.place x).version ≡ expected)
          × (migration_scope s m.project_id (owned.place x).owner_node_id m.root_node_id ≡ inside)
          × (stands_at (owned.place x) m.project_id domain epoch ≡ true)
          × (u ≡ owned.moved x target late ((owned.place x).version + 1))
          × (after ≡ put table id u)
    unfolding move_object assert_migration_scope
    move-ok h = ground arith

    ok-move :
        (x : T)
        → get table id ≡ some x
        → (owned.place x).version ≡ expected
        → migration_scope s m.project_id (owned.place x).owner_node_id m.root_node_id ≡ inside
        → stands_at (owned.place x) m.project_id domain epoch ≡ true
        → move_object s m table id expected domain epoch target late
          ≡ ok (
            owned.moved x target late ((owned.place x).version + 1),
            put table id (owned.moved x target late ((owned.place x).version + 1)),
          )
    unfolding move_object assert_migration_scope
    ok-move x found version scope here =
        rw found (rw version (rw (eq_refl expected) (rw scope (rw here refl))))

  -- A move to the target of the migration: of an object at its source, below its root.
  pub record IsMove (s : Directory) (migrations : List (Text × SecurityDomainMigration))
      (table : List (Text × T)) (migration_id id : Text) (expected : ℕ) (u : T)
      (after : List (Text × T)) : Type 0 where
    pub migration : SecurityDomainMigration
    pub current : T
    pub planned : get migrations migration_id ≡ some migration
    pub running : migration.state ≡ active
    pub apart : has_no_ends migration ≡ false
    pub found : get table id ≡ some current
    pub version : (owned.place current).version ≡ expected
    pub below :
        Below s.nodes migration.project_id migration.root_node_id
          (owned.place current).owner_node_id
    pub at_source :
        stands_at
          (owned.place current)
          migration.project_id
          migration.source_security_domain_id
          migration.source_security_epoch
        ≡ true
    pub updated :
        u
        ≡ owned.moved current migration.target_security_domain_id migration.target_security_epoch
            (expected + 1)
    pub written : after ≡ put table id u

  module _ (s : Directory) (migrations : List (Text × SecurityDomainMigration))
      (table : List (Text × T)) (migration_id id : Text) (expected : ℕ) where
    -- An object is moved only by an active migration with two different ends, at the version that the
    -- caller knew, if it stands at the migration's source in its project and its owner node lies
    -- below the migration's root; it goes to the target, its version goes up by one, and no other
    -- object is written.
    pub migrate-IsMove :
        (u : T) (after : List (Text × T))
        → migrate_security_ownership s migrations table migration_id id expected ≡ ok (u, after)
        → IsMove s migrations table migration_id id expected u after
    unfolding migrate_security_ownership
    migrate-IsMove u after h =
        let (m, is_written, e) =
          >>=-eq-ok (migration_for_object_write migrations migration_id) _ h in
        let (planned, running, apart) = write-ok migrations migration_id is_written in
        let (x, found, version, scope, here, updated, written) =
          move-ok s m table id expected m.source_security_domain_id m.source_security_epoch
            m.target_security_domain_id m.target_security_epoch e in
        record {
          migration = m;
          current = x;
          planned = planned;
          running = running;
          apart = apart;
          found = found;
          version = version;
          below =
              (migration_scope_inside s m.project_id (owned.place x).owner_node_id m.root_node_id).0
                scope;
          at_source = here;
          updated =
              updated
              ∙ ap (λ n. owned.moved x m.target_security_domain_id m.target_security_epoch (n + 1))
                  version;
          written = written;
        }

    -- Where the object stands after the move.
    moved_place :
        {u : T} {after : List (Text × T)}
        (move : IsMove s migrations table migration_id id expected u after)
        → owned.place u ≡ record (owned.place move.current) {
          security_domain_id = move.migration.target_security_domain_id;
          security_epoch = move.migration.target_security_epoch;
          version = expected + 1;
        }
    moved_place move =
        ap owned.place move.updated
        ∙ owned.place-moved move.current move.migration.target_security_domain_id
            move.migration.target_security_epoch (expected + 1)

    -- What stood at the source was there.
    source_place :
        {u : T} {after : List (Text × T)}
        (move : IsMove s migrations table migration_id id expected u after)
        → ((owned.place move.current).project_id ≡ move.migration.project_id)
          × ((owned.place move.current).security_domain_id
              ≡ move.migration.source_security_domain_id)
          × ((owned.place move.current).security_epoch ≡ move.migration.source_security_epoch)
    source_place move =
        let (both, epoch) = and_split _ _ move.at_source in
        let (project, domain) = and_split _ _ both in
        (
          eq_of _ move.migration.project_id project,
          eq_of _ move.migration.source_security_domain_id domain,
          eq_of _ move.migration.source_security_epoch epoch,
        )

    at_target :
        (x : T) (m : SecurityDomainMigration)
        → (owned.place x).project_id ≡ m.project_id
        → stands_at
            (record (owned.place x) {
              security_domain_id = m.target_security_domain_id;
              security_epoch = m.target_security_epoch;
              version = expected + 1;
            })
            m.project_id
            m.target_security_domain_id
            m.target_security_epoch
          ≡ true
    at_target x m project = rw project (
        rw (eq_refl m.project_id)
          (rw (eq_refl m.target_security_domain_id) (eq_refl m.target_security_epoch)))

    rollback-move :
        (now : List (Text × T)) (version : ℕ) (m : SecurityDomainMigration)
        → migration_for_object_rollback migrations migration_id ≡ ok m
        → rollback_security_ownership s migrations now migration_id id version
          ≡ move_object s m now id version m.target_security_domain_id m.target_security_epoch
              m.source_security_domain_id m.source_security_epoch
    unfolding rollback_security_ownership
    rollback-move now version m h = rw h refl

    -- A move can be taken back: right after it, the rollback of the object at its new version succeeds
    -- and gives back the object as it was, but for its version, which is two higher.
    pub rollback-migrate :
        (u : T) (after : List (Text × T))
        → migrate_security_ownership s migrations table migration_id id expected ≡ ok (u, after)
        → (x : T) × (get table id ≡ some x)
          × (let back =
                owned.moved x
                  (owned.place x).security_domain_id
                  (owned.place x).security_epoch
                  ((owned.place x).version + 2) in
              rollback_security_ownership s migrations after migration_id id (expected + 1)
              ≡ ok (back, put after id back))
    rollback-migrate u after h =
        let move = migrate-IsMove u after h in
        let m = move.migration in
        let x = move.current in
        let p = moved_place move in
        let (project, domain, epoch) = source_place move in
        let found : get after id ≡ some u =
          ap (λ t. get t id) move.written ∙ get-put_self table id u in
        let owner : (owned.place u).owner_node_id ≡ (owned.place x).owner_node_id =
          ap (λ q. q.owner_node_id) p in
        let scope =
          (migration_scope_inside s m.project_id (owned.place u).owner_node_id m.root_node_id).1
            (subst (Below s.nodes m.project_id m.root_node_id) (sym owner) move.below) in
        let here : stands_at (owned.place u) m.project_id m.target_security_domain_id
              m.target_security_epoch
            ≡ true =
          ap (λ q. stands_at q m.project_id m.target_security_domain_id m.target_security_epoch) p
          ∙ at_target x m project in
        let version : (owned.place u).version ≡ expected + 1 = ap (λ q. q.version) p in
        let number : (owned.place u).version + 1 ≡ (owned.place x).version + 2 =
          omega (arith, version, move.version) in
        let back : owned.moved u m.source_security_domain_id m.source_security_epoch
              ((owned.place u).version + 1)
            ≡ owned.moved x (owned.place x).security_domain_id (owned.place x).security_epoch
                ((owned.place x).version + 2) =
          ap
            (λ w.
              owned.moved w m.source_security_domain_id m.source_security_epoch
                ((owned.place u).version + 1))
            move.updated
          ∙ owned.moved-moved x m.target_security_domain_id m.source_security_domain_id
              m.target_security_epoch (expected + 1) m.source_security_epoch
              ((owned.place u).version + 1)
          ∙ rw number (rw domain (rw epoch refl)) in
        (
          x,
          move.found,
          rollback-move after (expected + 1) m
                (rollback-of_write migrations migration_id m move.planned move.running move.apart)
              ∙ ok-move s m after id (expected + 1) m.target_security_domain_id
                  m.target_security_epoch m.source_security_domain_id m.source_security_epoch u
                  found version scope here
              ∙ ap (λ b. ok (b, put after id b)) back,
        )

  -- An object is not moved twice by the same migration, whatever version the caller names.
  migrate-once :
      (s : Directory) (migrations : List (Text × SecurityDomainMigration)) (table : List (Text × T))
      (migration_id id : Text) (expected again : ℕ) (u y : T) (after later : List (Text × T))
      → migrate_security_ownership s migrations table migration_id id expected ≡ ok (u, after)
      → migrate_security_ownership s migrations after migration_id id again ≢ ok (y, later)
  migrate-once s migrations table migration_id id expected again u y after later h twice =
      let move = migrate-IsMove s migrations table migration_id id expected u after h in
      let next = migrate-IsMove s migrations after migration_id id again y later twice in
      let both : some next.migration ≡ some move.migration = sym next.planned ∙ move.planned in
      let same : next.migration ≡ move.migration = cc in
      let found : get after id ≡ some u =
        ap (λ t. get t id) move.written ∙ get-put_self table id u in
      let objects : some next.current ≡ some u = sym next.found ∙ found in
      let object : next.current ≡ u = cc in
      let p =
        ap owned.place object ∙ moved_place s migrations table migration_id id expected move in
      let (_, domain, epoch) = source_place s migrations after migration_id id again next in
      let domains : move.migration.target_security_domain_id
          ≡ move.migration.source_security_domain_id =
        sym (ap (λ q. q.security_domain_id) p)
        ∙ domain
        ∙ ap (λ m. m.source_security_domain_id) same in
      let epochs : move.migration.target_security_epoch ≡ move.migration.source_security_epoch =
        sym (ap (λ q. q.security_epoch) p) ∙ epoch ∙ ap (λ m. m.source_security_epoch) same in
      let clash = no_ends move.migration domains epochs in
      let apart = move.apart in let never : ⊥ = cc in never
