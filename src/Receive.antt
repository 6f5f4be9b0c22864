-- ===== src/Receive.antt =====
-- The receive process (realworking/src/receive): one module for each class.
pub mod App
pub mod Coder
pub mod FixChar
pub mod Db
pub mod HcCheck
pub mod Head
pub mod Main
pub mod Node
pub mod Queue
pub mod Sax
pub mod Socket
pub mod Work
mod Tests
