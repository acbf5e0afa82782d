-- ===== src/Agent.antt =====
-- The agent of a clustered service: src/service/ClusteredServiceAgent.{h,cpp}. `State` is its object,
-- and the other modules are its members by concern.
pub mod State
pub mod Driver
pub mod Service
pub mod Events
pub mod Log
pub mod Duty
pub mod Await
pub mod Adapter
pub mod Search
pub mod Launch
