-- ===== src/RangeServer/MemTable.antt =====
-- rangeserver/src/cache/memtabledb.rs: a ring of memtables, of which one takes the writes. The skip
-- list of each is the `OrderedSkipList` of the crate `skiplist`, a parameter with its documented laws.
pub mod Entries
pub mod Ring
pub mod Database
pub mod Reads
pub mod Clear
pub mod Chain
pub mod Start
pub mod Runs
pub mod Plain
mod Examples
pub mod RoundTrip
