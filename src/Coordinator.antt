-- ===== src/Coordinator.antt =====
-- coordinator/database: how the shards of a database are spread over the storage nodes.
pub mod ShardAssign
