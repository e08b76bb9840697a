-- ===== src/Proxy.antt =====
-- whttp/proxy.go: the reverse proxy.
pub mod Header
pub mod Forward
pub mod Answer
pub mod Target
pub mod Caching
pub mod Copying
pub mod Latency
mod Tests
