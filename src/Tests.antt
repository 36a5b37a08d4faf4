-- ===== src/Tests.antt =====
-- Tests: small instances of the crates that the program calls, and the theorems applied to them.
pub mod Toys
pub mod Wire
pub mod Responses
pub mod Requests
pub mod Settings
pub mod Gates
pub mod Hops
pub mod Serving
pub mod Together
pub mod Ended
pub mod Marker
pub mod Metered
