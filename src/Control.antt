-- ===== src/Control.antt =====
-- cmd/tunnel-control: the control server. A handler is a step from the server's state and the decoded
-- request to a reply and the next state.
pub mod Sessions
pub mod Traffic
pub mod Tunnels
pub mod Users
pub mod Nodes
pub mod Guarded
pub mod Clients
pub mod Probe
pub mod Availability
pub mod Bootstrap
pub mod Push
pub mod Pages
pub mod Usage
pub mod Log
