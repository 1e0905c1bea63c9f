-- ===== src/Tests.antt =====
-- The theorems at concrete inputs, and runs of the operations.
mod Execute
mod Fixtures
mod GateCases
mod DriveCases
mod NavigationCases
mod ObstacleCases
mod ClosureCases
mod SampleCases
mod ComputeRuns
mod ComputeCases
mod ProcessCases
