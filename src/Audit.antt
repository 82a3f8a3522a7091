-- ===== src/Audit.antt =====
-- audit/store.py and audit/text.py: the hash chains of the audit log.
pub mod Printable
pub mod Rows
pub mod Chains
pub mod Markers
pub mod Sweep
pub mod Verify
pub mod Linked
pub mod Filed
pub mod Absorbing
pub mod Writing
pub mod Batches
pub mod Whole
pub mod Dropping
pub mod Commits
pub mod Reading
pub mod Walking
pub mod Found
pub mod Expiring
pub mod Ledger
pub mod Taken
pub mod Refining
pub mod Answers
pub mod Asked
pub mod Readers
pub mod Tally
pub mod Accounted
pub mod Balance
pub mod Refusals
pub mod Attempts
