-- ===== src/Billing.antt =====
-- Money: packages/domain/src/shared/money.ts and packages/domain/src/billing/expert-fees.ts.
pub mod Money
pub mod Split
pub mod Fees
pub mod Dues
mod Tests
