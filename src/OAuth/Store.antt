-- ===== src/OAuth/Store.antt =====
-- oauth/store.py: every `work` body as a function of the file. `none` stands for an exception
-- (a broken primary key or foreign key, a refused argument); the transaction is rolled back then,
-- so the file is as it was.
pub mod Cascade
pub mod Purge
pub mod Clients
pub mod Flows
pub mod Authorizations
pub mod Access
pub mod Codes
pub mod Tokens
pub mod Housekeeping
pub mod Oidc
