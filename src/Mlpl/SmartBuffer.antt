-- ===== src/Mlpl/SmartBuffer.antt =====
-- server/mlpl/src/SmartBuffer.cc and SmartBuffer.h.
pub mod Block
pub mod Operations
pub mod Appends
pub mod Sequence
pub mod Numbers
pub mod Strings
mod Regions
pub mod Extract
