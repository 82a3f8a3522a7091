-- ===== src/OAuth/Verifier.antt =====
-- oauth/verifier.py: who a bearer token is, with the cache of positive answers.
pub mod Cache
pub mod Verify
pub mod Answers
