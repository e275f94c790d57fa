-- ===== src/Redis/Saving.antt =====
-- redis/rdb.c: saving to a file and in a child process, `rdbSaveInternal` to
-- `rdbSaveBackground`, the handlers of the child's end, SAVE and BGSAVE. The system's calls succeed
-- or not as `Calls` says; `rdbSaveRio` comes in with the bytes that it left in the file.
pub mod Disk
pub mod Child
pub mod Commands
pub mod Atomic
pub mod Sound
pub mod ForkSound
pub mod Killed
pub mod Reach
mod Runs
