-- ===== src/Server.antt =====
-- server/src: the Hatohol server.
mod Tests
mod QueryTests
mod MonitorTests
mod ThreadTests
pub mod ActionExecArgMaker
pub mod StatisticsCounter
pub mod DbTermCodec
pub mod OperationPrivilege
pub mod DataQueryOption
pub mod HostResourceQueryOption
pub mod DataQueryContext
pub mod SelfMonitor
pub mod HostInfoCache
pub mod IncidentSender
pub mod SessionManager
pub mod ResidentCommunicator
