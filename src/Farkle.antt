-- ===== src/Farkle.antt =====
-- The Farkle game server (game/farkle/internal).
pub mod Dice
pub mod Scoring
pub mod State
pub mod Message
pub mod Protocol
pub mod Player
pub mod Game
pub mod Lobby
pub mod Entry
pub mod Examples
