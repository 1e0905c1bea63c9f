-- ===== src/Sample.antt =====
-- The sample execution host: include/robot_harness/sample_execution.hpp and
-- src/sample/sample_execution.cpp.
pub mod Types
pub mod Host
pub mod Worker
pub mod Control
pub mod Events
pub mod Rebind
pub mod Commands
pub mod Built
pub mod Moves
pub mod Delivered
pub mod Steady
pub mod Lessens
pub mod Queue
pub mod Promises
