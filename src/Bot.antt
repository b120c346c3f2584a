-- ===== src/Bot.antt =====
-- telegram-bot/main.py: the caches and the handling of updates.
pub mod TtlCache
pub mod Store
pub mod Inbox
pub mod Texts
pub mod Updates
pub mod Cached
pub mod Webhook
pub mod Polling
