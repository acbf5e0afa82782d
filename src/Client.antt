-- ===== src/Client.antt =====
-- The client of a cluster (src/client/): what it reads from the cluster, and how it connects.
pub mod Egress
pub mod Poller
pub mod Adapter
pub mod Endpoints
pub mod State
pub mod Ingress
pub mod Session
pub mod Connect
pub mod Configuration
pub mod Decorator
