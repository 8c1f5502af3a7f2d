-- ===== src/Tests.antt =====
-- The theorems at concrete inputs.
mod Jobs
mod Plans
mod Downloads
mod Pools
mod Limits
mod Enumeration
mod Blobs
mod Pacing
mod Syncs
mod Readers
mod Uploads
