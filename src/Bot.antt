-- ===== src/Bot.antt =====
-- The bot of internal/usecase/bot and its states: one run of a meeting session.
pub mod Types
pub mod Context
pub mod World
pub mod Requests
pub mod Polling
pub mod States
pub mod Machine
