-- ===== src/Farkle/Examples.antt =====
-- Runs of the scoring and the game (game/farkle/internal), and the theorems at concrete inputs.
mod Hands
mod Runs
mod Lobbies
mod Players
pub mod Servers
