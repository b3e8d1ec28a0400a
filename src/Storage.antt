-- ===== src/Storage.antt =====
-- The repositories of adapters/storage/postgres: each method is an action on the database.
pub mod Search
pub mod Award
pub mod Score
pub mod Existing
pub mod Standings
pub mod Knockout
pub mod UpdateMatch
pub mod FinalizeGroup
pub mod ThirdPlace
pub mod Picks
pub mod Leaderboard
pub mod Users
pub mod Contests
pub mod Lists
pub mod Tally
pub mod Postgres
