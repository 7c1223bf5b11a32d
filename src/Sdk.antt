-- ===== src/Sdk.antt =====
-- packages/sdk/src: the part of the client that puts received messages in order.
pub mod OrderedMessageChain
