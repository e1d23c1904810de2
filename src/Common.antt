-- ===== src/Common.antt =====
-- server/common: what the server and its plugins share.
mod Tests
mod PipeTests
pub mod ItemData
pub mod ItemGroup
pub mod ItemTable
pub mod NamedPipe
