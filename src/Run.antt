-- ===== src/Run.antt =====
-- Runs of the program: the state, the environment that answers its calls, and actions.
mod World
mod Actions
pub mod Trace
pub mod Adds
pub mod Lives
pub mod Success
pub mod Makes
pub mod Seen
pub mod Returns
pub mod Log
pub mod Says
pub mod Left
pub mod Cluster
pub mod Shows
pub mod Cancelled
pub mod Goes
pub mod Housed
pub use World.{
  State, Outcome, ok, fail, panicked, exited, Env, Ended, Polls, expired, satisfied, refused,
  crashed, stopped, again, IsLawful,
}
unfoldable pub use Actions.*
