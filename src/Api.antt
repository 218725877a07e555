-- ===== src/Api.antt =====
-- What the program says to the systems around it, and what they answer.
mod Objects
mod Calls
mod Contexts
pub use Objects.*
pub use Calls.*
pub use Contexts.*
