-- ===== src/Exclusion.antt =====
-- nextcloud/exclusion.py: which files the tag `kein-ki` withholds from a tool call.
pub mod Scope
pub mod Flight
pub mod Guard
pub mod Lowest
pub mod Spellings
pub mod United
pub mod Closed
pub mod Shared
pub mod Parents
pub mod Below
pub mod Withheld
