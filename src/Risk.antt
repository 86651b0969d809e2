-- ===== src/Risk.antt =====
-- The risk layer: which quantity may be sold (backend/risk/sellable_qty.py), what a halt lets
-- through (backend/risk/halt_policy.py), and the kill switch (backend/risk/kill_switch.py).
pub mod Sellable
pub mod HaltPolicy
pub mod KillSwitch
pub mod Tests
