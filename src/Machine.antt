-- ===== src/Machine.antt =====
-- The state machine of one mount point: src/state_machine.hpp, src/interfaces and src/state.
-- A handler runs in a monad that keeps the machine and stops at an exception. What is
-- acquired, given back or handed on is written to `trace`; what the system answers is a field of
-- `System`, which is given anew for each event.
mod Types
pub mod Resources
pub mod Activating
pub mod Legacy
pub mod Handlers
pub mod Run
pub mod Balance
pub mod Completion
pub mod Protocol
pub mod Inactivity
pub use Types.*
