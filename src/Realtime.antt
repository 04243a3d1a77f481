-- ===== src/Realtime.antt =====
-- realtime/: the queue of hints of a subscription, its admission, and the publisher.
pub mod Subscription
pub mod Publisher
pub mod Topics
pub mod Events
