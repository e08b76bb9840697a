-- ===== src/Router.antt =====
-- whttp/router.go: the registry of routes.
pub mod Methods
pub mod Node
pub mod Insert
pub mod Find
pub mod Prefix
pub mod Static
pub mod Depth
pub mod Spin
pub mod Walk
mod Tests
