-- ===== src/Client.antt =====
-- The web socket clients of the games (game/common/client).
pub mod Socket
pub mod Writing
pub mod Manager
mod Examples
