-- ===== src/Execution/OrderPoller.antt =====
-- backend/execution/order_poller.py. Times are whole seconds, of the monotonic clock and of the
-- wall clock. The locks make each public method one step, and a tick of the loop one step.
pub mod Health
pub mod Entry
pub mod Loop
pub mod Breaker
pub mod Watermark
pub mod Backing
pub mod Timeouts
