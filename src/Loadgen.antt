-- ===== src/Loadgen.antt =====
-- internal/loadgen: the load generator.
pub mod Breaker
pub mod Scenarios
pub mod Summary
pub mod Engine
pub mod Client
pub mod Options
pub mod Incident
