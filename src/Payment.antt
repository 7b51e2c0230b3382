-- ===== src/Payment.antt =====
-- apps/api/app/services/payment_service.py: the payment ledger, collection and refunds.
pub mod Model
pub mod Summary
pub mod Collect
pub mod Refund
