-- ===== src/RedisRepository.antt =====
-- cpp/include/ocs/redis_repository.hpp and cpp/src/redis_repository.cpp: the operations of the
-- program on Redis. Events has the envelopes of the streams, Server the Redis server as a
-- parameter, Watch the loop of the guarded transactions, Writes and Streams the operations.
pub mod Events
pub mod Server
pub mod Watch
pub mod Writes
pub mod Effects
pub mod Endpoint
pub mod Streams
pub mod Claims
pub mod Scan
pub mod Once
pub mod Ends
pub mod Publishing
pub mod Newest
pub mod Latency
mod Examples
