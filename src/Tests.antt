-- ===== src/Tests.antt =====
-- Concrete inputs: the theorems at inputs that meet their hypotheses, and runs of the code.
pub mod Core
pub mod Surroundings
pub mod Session
pub mod Disk
pub mod Otp
pub mod Shell
pub mod Runs
pub mod Store
pub mod LineReader
pub mod Train
pub mod Setup
