-- ===== src/Gate.antt =====
-- The authority gate: include/robot_harness/authority_gate.hpp and src/core/authority_gate.cpp.
pub mod Types
pub mod Receipt
pub mod Disposition
pub mod State
pub mod Native
pub mod Output
pub mod Control
pub mod Startup
pub mod Capabilities
pub mod Binding
pub mod Rebind
pub mod Readiness
pub mod Admission
pub mod Validity
pub mod Calls
pub mod Answers
pub mod Invariant
pub mod Lifecycle
pub mod Promises
