-- ===== src/Strategy.antt =====
-- backend/strategy/base.py: the gate that every live order passes, and the orders that a strategy
-- places through it. The lifecycle hooks have empty bodies.
pub mod Gate
pub mod Orders
pub mod Tests
