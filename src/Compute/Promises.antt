-- ===== src/Compute/Promises.antt =====
-- What the compute host promises its client.
pub mod Sums
pub mod Results
pub mod Frames
pub mod Agreement
