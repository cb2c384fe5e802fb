-- ===== src/Setup.antt =====
-- go/cmd/ssentry/config.go and go/cmd/ssentry/main.go: the configuration, and what stands around the
-- command loop.
pub mod Config
pub mod Artifacts
pub mod Nonce
pub mod Main
pub mod Retries
pub mod Saved
pub mod Untrained
pub mod SecondFactor
pub mod Recorded
