-- ===== src/Billing.antt =====
-- The traffic plan of an endpoint: web/src/lib/endpoint-billing.ts.
pub mod Plan
pub mod Times
pub mod Accepted
mod Tests
