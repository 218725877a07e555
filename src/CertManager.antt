-- ===== src/CertManager.antt =====
-- cmd/cert-manager/cert-manager.go: the check that cert-manager issues certificates.
pub mod Objects
pub mod New
pub mod Check
pub mod Effects
pub mod Owns
pub mod Debug
pub mod Success
pub mod CleanUp
pub mod Plan
pub mod Cleared
pub mod Housed
pub mod Chain
pub mod Evidence
pub mod Cancelled
pub mod Order
