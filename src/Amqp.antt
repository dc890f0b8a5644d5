-- ===== src/Amqp.antt =====
-- lamqplib.c: RabbitMQ connections and channels.
pub mod Lua
pub mod Field
pub mod Frame
pub mod Connection
pub mod Channel
pub mod Options
pub mod Properties
pub mod Methods
pub mod Events
pub mod Connect
pub mod Agreement
mod Tests
