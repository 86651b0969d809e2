-- ===== src/Execution.antt =====
-- backend/execution: the order state machine, the position tracker, the order poller and the
-- convergence to terminal broker events.
pub mod OrderMachine
pub mod PositionTracker
pub mod OrderPoller
pub mod OrderEvents
pub mod FailureBreaker
pub mod FillReconciler
pub mod PositionReconciler
pub mod Idempotency
pub mod Tests
pub mod RuntimeTests
pub mod BookTests
pub mod ReconcileTests
pub mod IdempotencyTests
