-- ===== src/Tests.antt =====
-- The theorems at concrete inputs, and runs of the operations: a small codec, a manifest with two
-- packs, and the data root that an install of it leaves.
mod Samples
mod Releases
mod Requests
mod Installs
mod Records
mod Retained
mod Objects
mod Routes
mod Plans
mod Queries
mod Frontiers
mod Failures
