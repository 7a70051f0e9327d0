-- ===== src/Delivery.antt =====
-- gamesync_delivery.go: one delivery per stream, a bounded queue with a single writer.
pub mod Queue
pub mod History
pub mod Kept
pub mod Order
pub mod Failure
