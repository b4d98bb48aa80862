-- ===== src/Platform.antt =====
-- What the program calls and does not implement: the database, Redis and the queues, each an
-- interface of operations and of the documented laws on which the program relies.
pub mod Collection
pub mod Memory
pub mod Unique
pub mod Versioned
pub mod VersionedMemory
pub mod Queues
pub mod Redis
pub mod RedisMemory
pub mod Cache
pub mod CacheMemory
pub mod KeyedCache
pub mod KeyedMemory
pub mod Tracked
