-- ===== src/RedisKeys.antt =====
-- cpp/include/ocs/redis_keys.hpp: the names of the Redis keys, one function per key. The keys that
-- contain a generation number are left out.
pub mod Tables
pub mod Syncd
pub mod Orch
pub mod Connections
mod Examples
