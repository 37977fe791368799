-- ===== src/Signer.antt =====
-- How the signer decides what it signs: the match of its requests against the pending calls, and the
-- approvals that follow from these, libs/gl-client/src/signer.
pub mod Model
pub mod Resolve
pub mod Auth
pub mod Rune
pub mod Check
pub mod Process
pub mod Run
pub mod Pairing
pub mod Sign
pub mod Schedule
pub mod Example
mod Tests
