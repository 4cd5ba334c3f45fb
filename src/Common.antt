-- ===== src/Common.antt =====
-- The code of common/src that the other crates share.
pub mod KeyRange
