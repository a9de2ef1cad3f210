-- ===== src/Rotation.antt =====
-- packages/sdk/src/managed-key-rotation.ts.
pub mod Calls
pub mod Checks
pub mod Steps
pub mod Resume
pub mod Rotate
pub mod Safety
pub mod Quiet
pub mod Activation
pub mod Submission
pub mod Validation
pub mod Recovery
pub mod Errors
mod Tests
