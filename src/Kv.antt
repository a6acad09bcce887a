-- ===== src/Kv.antt =====
-- kv/version: the metadata of the LSM store, its edit logs and the manifest.
pub mod Level
pub mod Samples
pub mod Version
pub mod Log
pub mod EditLog
pub mod FamilyVersion
pub mod VersionSet
pub mod Table
pub mod CompactJob
pub mod MergedIterator
pub mod Family
