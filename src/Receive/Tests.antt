-- ===== src/Receive/Tests.antt =====
-- The theorems on the receive process, at concrete inputs.
mod Wire
mod Life
mod Config
mod Threads
mod Documents
