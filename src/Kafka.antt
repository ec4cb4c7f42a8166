-- ===== src/Kafka.antt =====
-- pkg/kafka: events, how they are sent, and their consumer.
pub mod Headers
pub mod Topics
pub mod Events
pub mod Emit
pub mod EnsureTopics
pub mod Consumer
pub mod Routing
pub mod Running
pub mod Polling
