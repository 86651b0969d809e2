-- ===== src/Brokers.antt =====
-- backend/brokers: the shared data model, the brokers' declared capabilities, and the check of a
-- request against them.
pub mod Models
pub mod Capabilities
pub mod Validator
pub mod Tests
