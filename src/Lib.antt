-- ===== src/Lib.antt =====
-- A model of atomix, a transactional layer for a datacenter, and the theorems about it.
--
-- Parts and files. Paths are from the root of the repository.
-- - Base: numbers, maps and sets as association lists, byte strings in lexicographic order.
-- - Common/KeyRange: common/src/key_range.rs. A range of keys with optional bounds.
-- - Routing: the base ranges that `create_keyspace` of universe/src/server.rs stores, and the search of
--   frontend/src/range_assignment_oracle.rs for the range of a key.
-- - RangeServer/LockTable: rangeserver/src/range_manager/lock_table.rs. One lock, one queue of
--   transactions that wait for it and one of those that wait for its release.
-- - RangeServer/PrefetchingBuffer: rangeserver/src/prefetching_buffer.rs. The keys that transactions
--   asked for, their states, and the two maps between transactions and keys. The range manager reads
--   values from it, writes committed values to it, and tells it that a transaction is complete.
-- - RangeServer/MemTable: rangeserver/src/cache/memtabledb.rs. Entries is the interface of the skip list;
--   Database the ring of tables and its writes; Reads, Clear, Chain the reads, `clear` and the invariant;
--   Runs and RoundTrip what a history of calls gives. Plain is a skip list that meets the interface.
-- - RangeServer/Lease: the lease renewal of rangeserver/src/range_manager/impl.rs. The coordinator commits
--   at an epoch inside the leases that the ranges report.
-- - RangeServer/RangeManager: rangeserver/src/range_manager/impl.rs. The states of a range and its loading;
--   Transactions has the calls of transactions, over the lock table and the buffer; Loading, Locks, Commits
--   and Writes are about histories of loads, the lock, what a commit does, and the writes of the storage.
-- - RangeServer/WardenHandler: rangeserver/src/warden_handler.rs. The ranges that the warden assigns to a
--   server, and the messages that make it load and unload them.
-- - RangeServer/Wal: rangeserver/src/wal/cassandra.rs. The rows of a log and the clients that append to it;
--   Extends is about what a log keeps, Appends about one append, Histories about many clients.
-- - RangeServer/Ownership: the lease row of a range in rangeserver/src/storage/cassandra.rs. Fencing is about
--   leaders of the past, Races about two servers that take over at once.
-- - Warden: warden/src/assignment_computation.rs. Servers is the set of ready range servers; Loads the
--   heap and the map of a run; Assign the run and the updates for servers; BaseRanges the reading of
--   base ranges and a round of the loop.
-- - Epoch: the epoch server (epoch/src), the publishers (epoch_publisher/src/server.rs) and the reader
--   (epoch_reader/src/reader.rs). Majority counts answers; Storage is the stored epoch and the rounds of
--   the update loop; Publisher is one publisher; Quorum puts a set of publishers between the two.
-- - Coordinator: the transaction of coordinator/src/transaction.rs. Store is the row of a transaction that
--   tx_state_store/src/storage/cassandra.rs keeps; Transaction the state and `abort`; Access `put`, `del`
--   and `get`; Commit the decision to commit, which goes through the store.
--
-- Correspondence. A function has the name of the source's function where it models all of it. A
-- method that holds a lock from start to end is one function on the state; a method that waits is cut
-- into its critical sections. A HashMap is an association list whose order nothing depends on but
-- the order in which the source walks the map. A uuid is its 128 bits as a number. Oneshot and watch
-- channels are numbers; whether a receiver still exists and when a waiter wakes up is chosen by the
-- environment. The clock, the uuids that are drawn and the answers of the database are arguments.
-- An i64 that the source casts to or from a u64 is its 64 bits, read without sign. A u64 counter
-- keeps its wrap-around. Loops are recursions on lists, or on the number
-- of rounds that the source fixes before the loop, so nothing runs out of fuel. A conditional statement
-- of the database is carried out at once and as a whole.
--
-- Not modelled: network, the rows of keys in the database and message encoding; the front end of the
-- range server; `prefetch` of the range manager beyond the calls of the buffer.
pub mod Base
pub mod Common
pub mod Coordinator
pub mod Epoch
pub mod RangeServer
pub mod Routing
pub mod Warden
