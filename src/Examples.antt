-- ===== src/Examples.antt =====
-- The theorems at concrete records, by component.
mod Clock
mod Deliverables
mod Roles
mod Migrations
mod Integrations
mod Assets
mod Access
mod Evidence
mod Orchestration
mod Reviewers
mod TaskCommands
mod Commands
mod Creation
mod Ownership
mod Queue
mod Events
mod Fences
mod Outbound
