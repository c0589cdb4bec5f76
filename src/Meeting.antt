-- ===== src/Meeting.antt =====
-- What the bot reads off a meeting's page, and off its URL.
pub mod Detector
pub mod Dialogs
pub mod Meet
pub mod Urls
