-- ===== src/Tests.antt =====
-- Tests: the theorems on concrete inputs.
pub mod Data
pub mod Texts
pub mod Engines
pub mod Stores
pub mod Servers
pub mod Reports
pub mod Handlers
pub mod Embedded
pub mod Programs
