-- ===== src/Dht.antt =====
-- packages/dht/src: the list of contacts in the order of their distance.
pub mod SortedContactList
