-- ===== src/Compute.antt =====
-- A compute process: its host (src/compute/compute_execution.cpp), the process as the host sees it
-- (src/compute/compute_process.cpp) and the worker that runs in it (src/compute/compute_worker.cpp).
pub mod Types
pub mod Host
pub mod Control
pub mod Reports
pub mod Finish
pub mod Rebind
pub mod Prepare
pub mod Polling
pub mod Commands
pub mod Proceeds
pub mod Worker
pub mod Process
pub mod Arguments
pub mod Sending
pub mod Promises
