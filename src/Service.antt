-- ===== src/Service.antt =====
-- The services of core/service, each on the repository that it takes.
pub mod Picks
pub mod Contest
pub mod Match
pub mod Leaderboard
pub mod Auth
