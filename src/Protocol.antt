-- ===== src/Protocol.antt =====
-- protocol/frontend.ts, protocol/backend.ts and the choice of releases in proxy.ts: the messages of a
-- connection in both directions.
pub mod Cycles
pub mod Messages
pub mod Backend
pub mod Session
pub mod Reader
pub mod Results
pub mod Releases
pub mod Announcements
pub mod Assembler
