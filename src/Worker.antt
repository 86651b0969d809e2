-- ===== src/Worker.antt =====
-- backend/worker: the promotion guard's arithmetic.
pub mod PromotionGuard
pub mod Tests
