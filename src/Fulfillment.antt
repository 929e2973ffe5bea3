-- ===== src/Fulfillment.antt =====
-- app/fulfillment and app/db/fulfillment_adapters.py: how the jobs of an order carry it from its
-- payment to its delivery.
pub mod Repository
pub mod Transition
pub mod Once
pub mod Implementing
pub mod Steps
pub mod Stamping
pub mod Upgrading
pub mod Delivering
pub mod JobHandlers
pub mod Terminal
pub mod Guarding
pub mod Observing
pub mod Monitoring
pub mod Unpaid
pub mod Queueing
pub mod Following
mod Tests
