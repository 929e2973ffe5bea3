-- ===== src/Payments.antt =====
-- app/payments: checkout and the webhook of the payment provider.
pub mod Models
pub mod Binding
pub mod Webhook
pub mod Applying
pub mod Delivery
pub mod Movement
pub mod Guarantees
pub mod Working
pub mod Paying
pub mod Redelivery
pub mod Reservations
pub mod Checkout
pub mod Completing
pub mod Leasing
pub mod Reserving
pub mod Finalizing
pub mod Samples
mod Tests
