-- ===== src/Monitor.antt =====
-- The monitor process (realworking/src/monitor), which tells the operator how the other two are.
pub mod Process
pub mod LogWatch
pub mod Sender
pub mod Threads
pub mod Main
mod Tests
