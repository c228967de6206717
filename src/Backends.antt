-- ===== src/Backends.antt =====
-- What the routers share about backends: the health of their targets, the sessions that stick to
-- one of them, the responses that are tried again, the TLS settings of their connections, and the
-- choice of a target with its filters.
pub mod Connections
pub mod HealthCheck
pub mod Sessions
pub mod Retries
pub mod Peers
pub mod Selector
pub mod Chain
pub mod Targets
