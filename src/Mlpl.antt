-- ===== src/Mlpl.antt =====
-- server/mlpl/src: the base library that the other parts are written on.
mod Tests
mod StateTests
mod BufferTests
pub mod StringUtils
pub mod SeparatorInjector
pub mod ParsableString
pub mod SmartTime
pub mod SmartBuffer
