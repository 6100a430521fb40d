-- ===== src/Network.antt =====
-- src/network/NetworkModule.ts, apart from its reading of streams.
pub mod Health
pub mod Healthy
pub mod Runs
pub mod Cache
pub mod Tests
