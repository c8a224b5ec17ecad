-- ===== src/Search.antt =====
-- The searches over plans: their limits, exploration, minimization, and the exit codes of their
-- results.
pub mod Limits
pub mod Environment
pub mod Minimize
pub mod Encoding
pub mod Explore
mod Tests
