-- ===== src/Consumer.antt =====
-- src/relayna/consumer: what a worker does with a message.
pub mod Effects
pub mod Context
pub mod Publish
pub mod Process
pub mod Handle
pub mod Hoare
pub mod Triples
pub mod Settlement
pub mod Verdict
pub mod Delivery
pub mod Lease
pub mod Headers
pub mod Redelivery
