-- ===== src/Tests.antt =====
-- Sample runs of the storage operations, and the theorems at concrete data.
mod Data
mod Matches
mod Groups
mod Picks
mod Sessions
mod Tally
mod People
mod Requests
mod Setups
