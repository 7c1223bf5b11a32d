-- ===== src/Lib.antt =====
-- The access control and the storage plugin of the Pombo storage node
-- (packages/node/src/plugins/storage), with the parts of packages/utils and packages/sdk that they
-- stand on; the order in which the client emits messages, the detection of messages that the
-- network has seen before, and the DHT's list of closest contacts.
--
-- A storage node keeps the messages of the stream parts that are assigned to it and answers HTTP
-- requests about them. Who may read or delete is decided from the chain: a stream is public, or a
-- user holds a permission on it, or a gate contract admits the user. The parts work together so:
-- the guard of signed reads and the endpoints for purges and for stored messages verify a signed
-- request (SignedRequest.ts) and ask the gates (PomboGates.ts), which remember the chain's answers
-- in caches with timers (MapWithTtl.ts) and tell the list of known public streams
-- (KnownPublicStreams.ts); the message listener asks the same gates before it stores a message
-- (IngestValidator.ts); the watchdog (CassandraWatchdog.ts) ends the process after a long outage
-- of the database; a synchronizer (SetMembershipSynchronizer.ts) brings snapshots and patches of
-- the assigned streams together, and the retention scheduler (RetentionScheduler.ts) deletes old
-- messages and the data of streams that are gone from the chain. A message to store is filed in a
-- bucket (Bucket.ts, BucketManager.ts) and waits in that bucket's batch for the insert that writes
-- it (Batch.ts, BatchManager.ts). In the client, a chain of messages (OrderedMessageChain.ts) keeps
-- what came too early in a heap (Heap.ts); in the network, a node asks DuplicateMessageDetector.ts
-- whether a message is new, and the DHT under it keeps the contacts closest to an id in a sorted
-- list (SortedContactList.ts).
--
-- The files, and the code that they model:
-- - Base and its children: what the program uses of JavaScript itself. A text is the list of its
--   UTF-16 code units, `Map` an association list, `Set` a list without repetitions, a number NaN,
--   an infinity or an integer.
-- - Utils/MapWithTtl: packages/utils/src/MapWithTtl.ts. Utils/EthereumAddress: EthereumAddress.ts
--   there. Utils/Heap: Heap.ts there.
-- - Sdk/OrderedMessageChain: packages/sdk/src/subscribe/ordering/OrderedMessageChain.ts, with
--   packages/sdk/src/protocol/MessageRef.ts.
-- - Trackerless/DuplicateMessageDetector: packages/trackerless-network/src/content-delivery-layer/
--   DuplicateMessageDetector.ts.
-- - Dht/SortedContactList: packages/dht/src/dht/contact/SortedContactList.ts.
-- - Storage/Outside: what is asked of the chain, the clock and `JSON.parse`, as fields of a record
--   that the definitions take as an argument.
-- - Storage/SignedRequest, Storage/KnownPublicStreams, Storage/PomboGates, Storage/SignedReads,
--   Storage/IngestValidator, Storage/PurgeEndpoint, Storage/StoredEndpoint,
--   Storage/CassandraWatchdog, Storage/SetMembershipSynchronizer, Storage/RetentionScheduler,
--   Storage/DeleteExpiredCmd, Storage/Batch, Storage/BatchManager, Storage/Bucket and
--   Storage/BucketManager:
--   the files of packages/node/src/plugins/storage with those names, and the listener in
--   StoragePlugin.ts, the queries in Storage.ts that the endpoints make, and `getMessageSigner` of
--   packages/sdk/src/StreamrClient.ts.
-- - Tests: concrete inputs, and each theorem at one of them.
--
-- A method keeps its name in the spelling of the language (`getGate` is `get_gate`), takes the
-- state of its object and returns the next one; `has` of the known public streams is `contains`. A
-- throw is a value of Result, or `none` where the code looks only at whether there was one. A
-- request or a message is handled at one instant; histories of calls and timers are lists of
-- events. The purge endpoint and the expiry take which of their queries fail as a parameter; the
-- other reads of the store are answered. A loop of the code is a recursion on a list, and the three attempts of `classify` one on
-- their number; only the bisection of the heap runs on fuel, the number of items, which is enough
-- since each round takes at least one place from the range, and gives `none` if it does not end. An insert of a batch is
-- two events, its start by a timer and its end with or without success, so calls and timers come
-- between them; a batch also says which timer is pending for it. The array of the package `heap` is
-- a list in whatever order that package keeps.
--
-- Not modelled: fractions and numbers from 10^21 on, logging, metrics other than the count of
-- rejections, and HTTP itself. Of the retention scheduler the delay of the first run, the row
-- sweep, and the orphan sweep up to the buckets that it chooses are modelled; of the buckets, the
-- check for full ones and the writing are not. Not modelled at all: the configuration and the
-- queries of the storage, the other plugins, the rest of the network and of the DHT, the SDK's
-- other parts, and the tools.
pub mod Base
pub mod Tests
pub mod Utils
pub mod Sdk
pub mod Trackerless
pub mod Dht
pub mod Storage
