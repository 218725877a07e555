-- ===== src/Ingress.antt =====
-- cmd/ingress/ingress.go: the check of an ingress controller and of external-dns.
pub mod Objects
pub mod New
pub mod Check
pub mod Effects
pub mod Owns
pub mod Debug
pub mod Success
pub mod CleanUp
pub mod Plan
pub mod Cleared
pub mod Housed
pub mod Wiring
pub mod Replies
pub mod Evidence
pub mod Cancelled
