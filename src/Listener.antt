-- ===== src/Listener.antt =====
-- internal/listener: the connection to Postgres on which a broker hears of the others.
pub mod Notices
pub mod Reconnect
pub mod Run
