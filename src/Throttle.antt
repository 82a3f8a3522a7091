-- ===== src/Throttle.antt =====
-- oauth/throttle.py: the counters of one process, and the wrapper of one route.
pub mod Counters
pub mod Wrapper
pub mod Waiting
pub mod Counting
pub mod Attempts
pub mod Serving
