-- ===== src/Loader.antt =====
-- The loader, src/loader: the count of background workers, the message queue between backends and
-- the launcher, and the launcher itself.
pub mod Counter
pub mod MessageQueue
pub mod Launcher
