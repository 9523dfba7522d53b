-- ===== src/Mest.antt =====
-- crates/storager/ads_lib/src/mest: the in-memory Merkle extendible hash table. Radix, capacities,
-- depths and lengths of segment keys are `i32`s that are no less than 0, as natural numbers.
pub mod Digits
pub mod Dotted
pub mod Segment
pub mod Bucket
pub mod Seh
pub mod Proof
