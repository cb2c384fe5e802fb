-- ===== src/Shell.antt =====
-- go/adapters/ptyshell/shell.go: commands in a persistent shell, delimited by a marker. Texts are
-- bytes here. `Marker`, `Run` and the functions of `Proxy`, `Modes` and
-- `Process` are the code, the rest is about it.
pub mod Marker
pub mod Run
pub mod Flow
pub mod Output
pub mod Free
pub mod Echo
pub mod Shown
pub mod Session
pub mod Proxy
pub mod Modes
pub mod Process
pub mod Decimal
pub mod ExitCode
pub mod Hold
pub mod Sealed
