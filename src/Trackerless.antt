-- ===== src/Trackerless.antt =====
-- packages/trackerless-network/src: the part that tells new messages from those seen before.
pub mod DuplicateMessageDetector
