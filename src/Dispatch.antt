-- ===== src/Dispatch.antt =====
-- server.cpp: the commands on sorted sets, and the dispatch of all commands.
pub mod Words
pub mod Sets
pub mod Request
pub mod Keyed
pub mod Safe
pub mod Overwrite
pub mod Stored
pub mod Scored
pub mod Add
pub mod Expect
pub mod Score
pub mod Drop
pub mod Positions
pub mod Place
pub mod Array
pub mod Query
pub mod Arguments
pub mod Range
pub mod Total
