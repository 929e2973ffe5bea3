-- ===== src/Notifications.antt =====
-- app/notifications and app/db/notification_adapters.py: the mails of an order, their leases and the
-- events of their provider.
pub mod Messages
pub mod Outbox
pub mod Leases
pub mod Delivery
pub mod Ending
pub mod Resend
pub mod Holding
pub mod Evident
pub mod Proven
pub mod Settling
pub mod Repeated
pub mod Sending
pub mod Concluding
pub mod Samples
mod Tests
