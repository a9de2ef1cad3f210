-- ===== src/Stream.antt =====
-- packages/log-c2sp-tlog/src/stream-verifier.ts.
pub mod Evidence
pub mod Checks
pub mod Envelopes
pub mod Verifier
pub mod Facts
pub mod Lineage
pub mod Accepted
pub mod Reached
pub mod Thumbprints
pub mod Matching
pub mod Materialised
pub mod Order
pub mod Commitment
pub mod References
pub mod Stitching
pub mod Stitched
mod Tests
