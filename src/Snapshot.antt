-- ===== src/Snapshot.antt =====
-- Snapshots of the client sessions: `Taker` writes one (src/service/SnapshotTaker.{h,cpp},
-- src/service/ServiceSnapshotTaker.{h,cpp}), `Loader` reads one (src/service/ServiceSnapshotLoader.{h,cpp}).
pub mod Format
pub mod Taker
pub mod Loader
