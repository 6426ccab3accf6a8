-- ===== src/Queue.antt =====
-- The message queue (common/queue) over the AMQP library.
pub mod Amqp
pub mod Channel
pub mod Declaration
pub mod Connection
pub mod Pool
pub mod Publisher
pub mod Consumer
mod Examples
