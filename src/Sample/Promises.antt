-- ===== src/Sample/Promises.antt =====
-- What the sample host promises its client.
pub mod Histories
pub mod Endings
pub mod Shutdown
pub mod Clock
pub mod Results
