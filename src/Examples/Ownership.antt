-- ===== src/Examples/Ownership.antt =====
-- A task that an active migration moves into a security domain, and back.
use project_process_map.Base.{◌≡◌, ◌+◌, refl, some, List, ◌∷◌, []}
use project_process_map.Base.Results.{ok}
use project_process_map.Base.Tables.{get, put}
use project_process_map.Base.Text.{Text, text}
use project_process_map.Base.Equality.{list_eq, nat_eq}
use project_process_map.Access.{scope_walk, migration_scope}
use project_process_map.Security.Migration.{SecurityDomainMigration}
use project_process_map.Tasks.{ProductTask}
use project_process_map.Ownership.{
  owned_task, moved_task, migration_for_object_write, assert_migration_scope, move_object,
  migrate_security_ownership, migrate_task, rollback_task,
}
use project_process_map.Ownership.Moves.{IsMove, migrate-IsMove, rollback-migrate}
use project_process_map.Examples.Access.{store}
use project_process_map.Examples.Migrations.{begun}
use project_process_map.Examples.TaskCommands.{task}

abbrev migrations : List (Text × SecurityDomainMigration)
migrations = (text "m", begun) ∷ []

abbrev table : List (Text × ProductTask)
table = (text "task-1", task) ∷ []

abbrev moved : ProductTask
moved = moved_task task (some (text "dom")) 2 4

abbrev after : List (Text × ProductTask)
after = (text "task-1", moved) ∷ []

moves : migrate_task store migrations table (text "m") (text "task-1") 3 ≡ ok (moved, after)
unfolding migrate_security_ownership migration_for_object_write move_object assert_migration_scope
    migration_scope scope_walk put
moves = refl

migrate-IsMove_example : IsMove store migrations table (text "m") (text "task-1") 3 moved after
migrate-IsMove_example =
    migrate-IsMove store migrations table (text "m") (text "task-1") 3 moved after moves

rollback-migrate_example :
    (x : ProductTask) × (get table (text "task-1") ≡ some x)
    × (let back = moved_task x x.security_domain_id x.security_epoch (x.version + 2) in
        rollback_task store migrations after (text "m") (text "task-1") 4
        ≡ ok (back, put after (text "task-1") back))
rollback-migrate_example =
    rollback-migrate store migrations table (text "m") (text "task-1") 3 moved after moves
