-- ===== src/Games.antt =====
-- Games and how they are launched (gfire/src/x_games.c).
pub mod Document
pub mod Names
pub mod Info
pub mod Command
pub mod LaunchInfo
