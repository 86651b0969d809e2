-- ===== src/KisAdapter.antt =====
-- kis_adapter: the client of the KIS broker.
pub mod Pagination
pub mod Tests
