-- ===== src/Fluent.antt =====
-- cmd/fluent/fluent.go: the check that logs reach S3.
pub mod Objects
pub mod New
pub mod Check
pub mod Effects
pub mod Owns
pub mod Debug
pub mod Success
pub mod Sizing
pub mod Evidence
pub mod Cancelled
pub mod Shipped
pub mod CleanUp
pub mod Plan
pub mod Cleared
pub mod Housed
pub mod Listing
