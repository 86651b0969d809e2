-- ===== src/Data.antt =====
-- backend/data: the market calendar, corporate actions and the freshness of market data.
pub mod Calendar
pub mod CorporateActions
pub mod Freshness
pub mod Tests
