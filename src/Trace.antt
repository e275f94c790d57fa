-- ===== src/Trace.antt =====
-- The tracing that this repository adds to Redis and Mosquitto: the pages of each saved object,
-- and the shares of the dump.
pub mod Pages
pub mod Progress
mod Runs
