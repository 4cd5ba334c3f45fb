-- ===== src/RangeServer.antt =====
-- The code of rangeserver/src: the lock table, the prefetching buffer, the epoch leases, the memtable
-- cache, the range manager, the handler of the updates of the warden, the log, the ownership of a
-- range.
pub mod LockTable
pub mod PrefetchingBuffer
pub mod Lease
pub mod MemTable
pub mod RangeManager
pub mod WardenHandler
pub mod Wal
pub mod Ownership
