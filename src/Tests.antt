-- ===== src/Tests.antt =====
-- Runs on concrete inputs: the theorems of the library applied where their conditions hold.
pub mod Samples
pub mod Store
pub mod Provider
pub mod Verifying
pub mod Throttling
pub mod Auditing
pub mod Identifying
pub mod Mapping
pub mod Excluding
