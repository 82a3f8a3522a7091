-- ===== src/Ids.antt =====
-- ids.py: the prefixed resource ids, built and read in one place.
pub mod Codec
pub mod Pieces
pub mod Encoders
pub mod RoundTrip
pub mod Cards
