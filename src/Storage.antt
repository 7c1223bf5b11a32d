-- ===== src/Storage.antt =====
-- packages/node/src/plugins/storage: the storage plugin.
pub mod SignedRequest
pub mod KnownPublicStreams
pub mod Outside
pub mod PomboGates
pub mod SignedReads
pub mod Batch
pub mod BatchManager
pub mod Bucket
pub mod BucketManager
pub mod DeleteExpiredCmd
pub mod StoredEndpoint
pub mod RetentionScheduler
pub mod SetMembershipSynchronizer
pub mod CassandraWatchdog
pub mod PurgeEndpoint
pub mod IngestValidator
