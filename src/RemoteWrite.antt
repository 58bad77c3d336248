-- ===== src/RemoteWrite.antt =====
-- internal/remotewrite: the series of a snapshot (Series, from encode.go) and the persistent queue
-- that delivers them (Queue, from sender.go).
pub mod Series
pub mod Queue
