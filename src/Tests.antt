-- ===== src/Tests.antt =====
-- The theorems at concrete inputs, and runs of the definitions.
mod Config
mod Dns
mod Http
mod Settings
mod Messages
mod Requests
mod Portal
