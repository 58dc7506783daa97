-- ===== src/Privileged.antt =====
-- src/privileged: the approval of root operations and the encrypted channel to the approval gate.
pub mod Wire
pub mod Policy
pub mod Framing
pub mod Crypto
pub mod Approval
pub mod Gate
mod Tests
