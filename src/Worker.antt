-- ===== src/Worker.antt =====
-- The worker: its handlers (worker/handler), the history of worker/server and the matcher of
-- worker/import-cache.
pub mod Docker
pub mod Handlers
pub mod History
pub mod Lru
pub mod Paths
pub mod Config
pub mod CodeRegistry
pub mod Installer
pub mod Cgroups
pub mod Matcher
pub mod Average
pub mod Cache
pub mod ForkRequest
pub mod Pool
pub mod Server
pub mod Sock
pub mod Start
pub mod Util
mod Tests
