-- ===== src/Integrated.antt =====
-- internal/integrated/engines.go: how the embedded engines are brought in line with the store. The
-- packages file, server and bridge of NPS and the service of frp are parameters.
pub mod Library
pub mod Sync
pub mod Prune
pub mod Pruned
pub mod Wanted
pub mod Synced
pub mod Traffic
pub mod Statuses
pub mod Frp
