-- ===== src/Gate/Promises.antt =====
-- What the gate promises its host, over every history of calls.
pub mod Located
pub mod Revocation
pub mod Stop
pub mod Unknown
pub mod Output
pub mod Numbers
pub mod Replay
pub mod Settlement
pub mod Startup
pub mod Rebinding
pub mod Handover
pub mod Delivery
