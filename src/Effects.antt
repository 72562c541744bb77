-- ===== src/Effects.antt =====
-- Effects: exceptions and state, the calls that leave the program, and what those calls answer.
-- A run is a function of the state, which holds every call made so far; what a call answers is a
-- parameter that may depend on all of that history.
mod Monad
mod Calls
mod State
pub use Monad.*
pub use Calls.*
pub use State.*
pub mod Yields
