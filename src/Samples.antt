-- ===== src/Samples.antt =====
-- The theorems at concrete inputs.
mod Wire
mod Engine
mod Inbound
mod Janitor
mod Outbound
mod Session
mod Connect
mod Subscribe
mod Limits
mod Listener
mod Run
mod Fan
