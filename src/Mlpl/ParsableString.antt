-- ===== src/Mlpl/ParsableString.antt =====
-- server/mlpl/src/ParsableString.cc and .h: the separator checkers, and the parser of words.
pub mod Checker
pub mod Counter
pub mod Callback
pub mod Parser
pub mod Words
pub mod Reads
