-- ===== src/Otp.antt =====
-- The second factor: the vault of go/adapters/totpauth, the daemon's handler of
-- go/cmd/ssentry/otpd.go and the session's client of go/adapters/otpsockclient. The functions of
-- `Vault`, `Server`, `Client`, `Connection` and `Daemon` are the code, the rest is about it.
pub mod Vault
pub mod Server
pub mod Client
pub mod Laws
pub mod Enrollment
pub mod Isolation
pub mod Connection
pub mod Daemon
pub mod Race
pub mod Session
