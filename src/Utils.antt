-- ===== src/Utils.antt =====
-- packages/utils/src: the data structures and string checks that the other packages share.
pub mod MapWithTtl
pub mod EthereumAddress
pub mod Heap
