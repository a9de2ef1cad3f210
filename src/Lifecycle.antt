-- ===== src/Lifecycle.antt =====
-- packages/protocol/src/log-events.ts and the class DomainLog of
-- packages/protocol/src/verified-domain.ts.
pub mod Keys
pub mod Events
pub mod Snapshot
pub mod Given
pub mod Grammar
pub mod History
pub mod Prefix
mod Tests
