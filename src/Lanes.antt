-- ===== src/Lanes.antt =====
-- lanes.ts: lanes of connections, plans, the fair scheduler and the binding of replayed lanes.
pub mod Labels
pub mod Plans
pub mod Fair
pub mod Resolve
pub mod Binder
pub mod Replay
mod Tests
