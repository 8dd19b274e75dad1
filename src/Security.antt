-- ===== src/Security.antt =====
-- Security domains, their grants and the migration between domains (packages/domain/src).
pub mod Access
pub mod Migration
