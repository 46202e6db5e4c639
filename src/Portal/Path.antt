-- ===== src/Portal/Path.antt =====
-- Formatting an endpoint and reading it back, over the carrier path of a URL.
pub mod Texts
pub mod Host
pub mod Star
pub mod Segments
pub mod Carriers
pub mod User
pub mod Kept
pub mod RoundTrip
