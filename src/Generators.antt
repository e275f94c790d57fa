-- ===== src/Generators.antt =====
-- The programs that fill Redis, Mosquitto and the memory for the experiments:
-- redis/redis_injector.c, mosquitto/mosquitto_injector.c and the test apps.
pub mod Ranges
pub mod Injector
pub mod Texts
pub mod Publisher
pub mod Touch
mod Runs
