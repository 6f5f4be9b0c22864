-- ===== src/Common.antt =====
-- What the three processes share (realworking/src/common).
pub mod Conf
pub mod Log
pub mod Trace
mod Tests
