-- ===== src/Tests.antt =====
-- Concrete runs of the models, and the theorems at concrete inputs.
pub mod Toy
pub mod Caches
pub mod Requests
pub mod Reads
pub mod Stored
pub mod Membership
pub mod Retention
pub mod Asked
pub mod Batches
pub mod Buckets
pub mod Sweeps
pub mod Chains
pub mod Contacts
