-- ===== src/Store.antt =====
-- internal/core/store.go: the store. Each method holds the store's mutex throughout, so it is one
-- step from a state and the outside (`Env`) to a result and the next state. A map is read in the
-- order of its entries; only the choice between two error messages depends on that order.
pub mod Base
pub mod Rules
pub mod Tunnels
pub mod Nodes
pub mod Users
pub mod Load
pub mod Invariant
