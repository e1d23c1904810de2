-- ===== src/Mlpl/StringUtils.antt =====
-- server/mlpl/src/StringUtils.cc.
pub mod Split
pub mod Chars
pub mod Strip
pub mod Number
pub mod Affix
