-- ===== src/Ui.antt =====
-- src/ui: the application controller, as a machine that a step leads from state to state. A step is a
-- call of the user interface, a reply of the server, a worker that has finished, or a timeout.
pub mod State
pub mod Account
pub mod Session
pub mod Login
pub mod Pin
pub mod Writes
pub mod Items
pub mod Controller
pub mod Jobs
pub mod Callbacks
pub mod Waiting
pub mod Liveness
pub mod Reachable
pub mod Safety
pub mod SafeSteps
pub mod SafeReplies
pub mod Invariant
pub mod Guarantees
pub mod Locking
