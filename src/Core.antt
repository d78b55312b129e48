-- ===== src/Core.antt =====
-- internal/core: the data model, the store and the rendering of configurations.
pub mod Port
pub mod Domain
pub mod Model
pub mod Env
pub mod Secret
pub mod Clients
pub mod Frp
