-- ===== src/Queue.antt =====
-- pkg/queue: the queue operations over RabbitMQ and over Redis.
pub mod Options
pub mod Rabbit
pub mod Redis
