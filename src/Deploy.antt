-- ===== src/Deploy.antt =====
-- The deploy subsystem: api/internal/deploy and the deployments table of api/internal/store.
pub mod Status
pub mod Schema
pub mod Table
pub mod Retention
pub mod Statement
pub mod Invariant
pub mod Worker
pub mod Handlers
pub mod Sweeper
pub mod Delivery
pub mod Services
pub mod Pipeline
pub mod Samples
mod Tests
