-- ===== src/Redis.antt =====
-- redis/rdb.c: the snapshot writer and the parts of the loader that read its codes back.
pub mod Format
pub mod Rio
pub mod Endian
pub mod Length
pub mod Host
pub mod Integer
pub mod Text
pub mod Scalars
pub mod Opcodes
pub mod Counting
pub mod Object
pub mod Entries
pub mod Dump
pub mod Saving
pub mod Load
pub mod Samples
mod Runs
