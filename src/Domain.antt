-- ===== src/Domain.antt =====
-- The pure core, backend/app/domain: one shift with its pay, and the summary of many.
pub mod Zone
pub mod Decimal
pub mod Schedule
pub mod Analytics
mod Tests
