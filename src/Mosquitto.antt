-- ===== src/Mosquitto.antt =====
-- mosquitto files/persist_write.c and loop.c: the broker's database file and its main loop.
pub mod Chunks
pub mod Writes
pub mod Store
pub mod Clients
pub mod Subs
pub mod Retained
pub mod Backup
pub mod Loop
pub mod Samples
mod Runs
