-- ===== src/Repl.antt =====
-- go/cmd/ssentry/repl.go: the command loop. The first six modules are its code, the others are about
-- it.
pub mod State
pub mod Prompt
pub mod Novelty
pub mod Judge
pub mod Challenge
pub mod Loop
pub mod Trace
pub mod Severity
pub mod Otp
pub mod Kept
pub mod Rounds
pub mod FailedChallenge
pub mod Trained
