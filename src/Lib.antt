-- ===== src/Lib.antt =====
-- Verification of the rules of the project process map: its domain (packages/domain/src), the
-- access rules and task commands of its application layer (packages/application/src), and the store
-- that the commands write to (packages/adapters/src/memory).
--
-- A project is a tree of nodes. Nodes own tasks, deliverables and assets; a principal reaches an
-- object by a membership of the project and, where the object stands in a security domain, by a
-- grant in it. A migration moves the objects below a node from one security domain to another,
-- batch by batch, and while it runs the access rules ask both domains.
--
-- Which file is about which part, with the source's names in snake case:
--   Tasks              packages/domain/src/tasks.ts: a function per operation (startTask is
--                      start_task), which returns the new task or the error that is thrown.
--                      Tasks/Steps has the operations as a step relation.
--   Security/Access    packages/domain/src/security-access.ts
--   Security/Migration packages/domain/src/security-migration.ts
--   Deliverables       packages/domain/src/deliverables.ts; its validator, split at its groups of
--                      tests, is in Deliverables/Requirement, and what it accepts, said without the
--                      tests, in Deliverables/Canonical.
--                      The links to evidence and the records of actions: Deliverables/Evidence.
--   RoleSlots          packages/domain/src/role-slots.ts
--   Integrations       packages/domain/src/integration-operations.ts, external-reference.ts
--   Assets             packages/domain/src/assets.ts
--   Projects           packages/domain/src/identity.ts, project-access.ts, project-structure.ts
--   Store              the tables of a transaction that the rules read, with the list of
--                      recoverable migrations of packages/adapters/src/memory/persistence.ts
--   Access             packages/application/src/access/project-security.ts
--   Reviewers          packages/application/src/tasks/resolve-task-reviewer.ts
--   TaskCommands       packages/application/src/tasks/act-on-task.ts: the command is checked and
--                      applied in TaskCommands, `execute` with its lookups and writes is in
--                      TaskCommands/Execution, its event and message in TaskCommands/Messages.
--                      TaskCommands/Commits says what a new command writes.
--                      The creation of a task (packages/application/src/tasks/create-task.ts) is in
--                      TaskCommands/Creation, up to what an earlier receipt leads to.
--   Events             packages/domain/src/events.ts, event-schema-registry.ts; what is let in, said
--                      without the tests, is in Events/Conformance
--   Memory             packages/adapters/src/memory/persistence.ts: the transaction and the
--                      repositories that the commands on tasks use, on tables with the source's keys
--   Ownership          the moves of an object between security domains in the same file, for any
--                      type of objects with a place (tasks, assets, deliverables)
--   Queue              the consumers of the outbox and of the jobs in the same file: leases with
--                      tokens (claimFrom in Queue, the rest in Queue/Settling), for any type of items
--                      with a delivery. Queue/Steps has histories of calls as a step relation,
--                      Queue/Exclusive what others call during a lease, and Queue/Outcomes what
--                      becomes of an item from its claim to the end of the lease.
--   Fences             packages/domain/src/outbound-projection-fence.ts, and acquire, renew and
--                      release of outboundProjectionFences in the same file as Queue
--   Outbound           hasActiveFenceOrUnresolvedOperationInMigrationScope in that file
--   Orchestration      tools/cindy/state-machine.ts, with the states of tools/cindy/types.ts: a run
--                      of the development tool (its transitions are a step relation)
--   Base               what they share: lists over native numbers, an interface for equality,
--                      results with the errors as values, JavaScript's strings, sets and maps
--   Examples           each theorem at concrete records
--
-- How the program is modelled. A string is the list of its UTF-16 code units, with `trim` and the
-- comparison of ECMAScript. A thrown error is a value of a type of errors, without the values that
-- its message quotes. An optional field that may be null is an option, in an option where null and
-- undefined differ. Numbers that the types allow to be any number are natural numbers; the tests
-- against the largest safe integer are kept. `Date.parse` and `toISOString` belong to the runtime:
-- they are a parameter (Base/Dates) of which nothing is assumed. So are the hash of a command's
-- payload, `localeCompare` on times, and the random tokens of the leases, which are different from
-- each other where a theorem says so. The time of an authorization (`new Date()`) is an argument.
--
-- The store. A transaction works on a draft, which takes the place of the state when nothing is
-- thrown; the calls of the store run one after the other, as its queue makes them, so an interleaving
-- of workers is a sequence of calls. What a command reads of nodes, members, principals and security
-- is a directory for each tenant, which commands on tasks do not write.
--
-- Loops. The two walks from a node to the root of a migration (Access, Outbound) run on fuel, one
-- round more than the table has nodes, which is enough because they stop at a node that they have
-- seen. All other loops are recursions on lists.
--
-- Not modelled: the servers, the worker, the adapters for SQLite, files and HTTP, the other commands
-- of the application layer with the repositories that only they use, and the other tools; the tests
-- on `typeof`, which pass for every value of a record's type.
mod Base
pub mod Tasks
pub mod Security
pub mod Deliverables
pub mod RoleSlots
pub mod Integrations
pub mod Assets
pub mod Projects
pub mod Store
pub mod Access
pub mod Events
pub mod Fences
pub mod Queue
pub mod Memory
pub mod Ownership
pub mod Reviewers
pub mod TaskCommands
pub mod Orchestration
pub mod Outbound
pub mod Examples
