-- ===== src/Market.antt =====
-- backend/market: what an instrument is called, and by whom.
pub mod Symbols
pub mod Tests
