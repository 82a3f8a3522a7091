-- ===== src/OAuth/Provider.antt =====
-- oauth/provider.py: the token endpoint, on the store and on the two caches of one process (the
-- held answers of the rotation, and the cache of oauth/verifier.py).
pub mod Policy
pub mod Exchange
pub mod Reuse
pub mod Ending
pub mod Rotating
pub mod Retry
