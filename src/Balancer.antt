-- ===== src/Balancer.antt =====
-- The load balancer (load_balancer/).
pub mod Registry
pub mod Servers
pub mod Proxy
pub mod Attempts
pub mod Config
pub mod Limit
mod Tests
