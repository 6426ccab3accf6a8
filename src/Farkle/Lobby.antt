-- ===== src/Farkle/Lobby.antt =====
-- The lobby of a game (game/farkle/internal/lobby).
pub mod Ready
pub mod Meeting
pub mod Joining
pub mod Opening
pub mod Life
pub mod Worker
