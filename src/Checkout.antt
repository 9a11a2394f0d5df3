-- ===== src/Checkout.antt =====
-- Payment for a request: the rows of packages/adapters/src/persistence/prisma-payment-repository.ts and
-- the checkout of packages/domain/src/payments/checkout-service.ts.
pub mod Payments
pub mod Rows
pub mod Checkouts
pub mod Endings
pub mod Charges
mod Tests
