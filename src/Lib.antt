-- ===== src/Lib.antt =====
-- ShellSentry: a verification library for the Go part of the program.
--
-- ShellSentry is the login shell of an SSH user. Its command loop reads a line, judges it by the
-- rules of the administrator, by the score of a model and by what the user was never seen to do,
-- asks for a one-time code where it is judged hard, hands it to a shell behind a pseudo-terminal and
-- records it; a clean session goes to a database, from which the training command makes the encoders
-- and the matrix of the model. A daemon that runs as root keeps the secrets of the one-time codes.
--
-- Files and code:
--   Base, Text, Result  the shared names; lists, tests and integers over the native numbers; the
--                       functions of Go's `strings` that the program calls, with `Text.Bytes` for
--                       those that look for white space in bytes; results and actions
--   Rules               go/core/rules.go: `check` is `Check`, `split_segments` is `splitSegments`,
--                       `token_prefix_match` is `tokenPrefixMatch`
--   Complete            go/core/complete.go: `line_complete` is `LineComplete`
--   Decide              go/core/decide.go: `decide`, `split_command`
--   Path, Feature       go/core/path.go, go/core/feature.go, go/core/timecycle.go
--   Training            go/core/training.go: `build_dicts`, `build_matrix`
--   Username            go/core/username.go, and `userFile` of go/cmd/ssentry/main.go
--   Ports               go/core/session.go, go/ports/ports.go
--   Repl                go/cmd/ssentry/repl.go: `Repl.Judge` and `Repl.Novelty` judge a line,
--                       `Repl.Challenge` asks for the code, `Repl.Loop` is `RunREPL`
--   Setup               go/cmd/ssentry/config.go and the session of go/cmd/ssentry/main.go:
--                       `Setup.Main` is `runSession`, `Setup.Artifacts` loads what it starts from
--   LineReader          go/cmd/ssentry/linereader.go: `LineReader.Words` and `LineReader.Files`
--                       complete a word and a path, `LineReader.Bytes` reads single bytes, there
--                       with `readLine` of go/cmd/ssentry/repl.go
--   Store               go/adapters/sqlitestore/store.go: `Store.Methods` has the methods, on the
--                       tables of `Store.Tables` and the driver of `Store.Driver`;
--                       `Store.Refinement` has the list of sessions that they stand for
--   Train               go/cmd/ssentry/train.go: `Train.Job` is `trainSession` with its helpers,
--                       `Train.Python` is `resolvePython`
--   Otp                 go/adapters/totpauth/totp.go (`Otp.Vault`), go/cmd/ssentry/otpd.go (its
--                       requests in `Otp.Server`, a connection in `Otp.Connection`, `runOTPD` in
--                       `Otp.Daemon`), go/adapters/otpsockclient/client.go (`Otp.Client`)
--   Shell               go/adapters/ptyshell/shell.go: `Shell.Run` has `RunCommand`, `runCaptured`
--                       and their helpers, `Shell.Modes` and `Shell.Proxy` the modes of the terminal
--                       and the loops that poll, `Shell.Process` has `New` and `Close`
--   Adapters            go/adapters/scorerclient/client.go, go/adapters/alertsock/alerter.go and
--                       go/adapters/geomaxmind/geo.go
--   Tests               concrete surroundings, runs of the code, and the theorems at concrete inputs
--
-- How they interact: `Setup.Main` makes the dependencies of `Repl.Loop` out of the configuration, the
-- artifacts and the adapters, and gives the session to the store's port. `Setup.Recorded` puts the
-- SQLite store behind that port, `Train.History` behind the training command. The client of
-- `Otp.Client` meets the daemon's handler in `Otp.Session`, and `Setup.SecondFactor` gives the two to
-- the command loop as its verifier; `Otp.Race` is about two requests that the daemon serves at once.
--
-- Texts are lists of code points, or of bytes in UTF-8 where the code walks bytes: in LineReader,
-- in Shell and in the client of the OTP daemon. A Go `int` is an integer without a bound where the
-- program adds to it no more than the lines and the rows that it reads; the durations of the
-- configuration wrap around at 64 bits, and an exit code is read as an int64. Floating-point
-- numbers are a parameter, a record of the operations that the code uses.
--
-- The command loop is a function on a state: the world, the readings left, the trace of what was
-- called, the session, the time of the last command and the authorized lines. The scorer, the
-- clock, the shell, the resolver of countries, the verifier and the alert socket are functions on
-- the abstract world, about which nothing is assumed. A `map` is an association list, and the set
-- of authorized lines a list. The OTP daemon works on an abstract disk; its theorems assume what
-- `Otp.Laws.SystemLaws` says of the two files that the vault keeps for each accepted user name:
-- they are files at paths of their own, which a write, a removal and the making of the user's
-- directory treat as usual. A vault directory without links, which no other process writes, is such
-- a system.
--
-- The store works on two tables, with the meaning of each SQL text written out, over a driver in
-- which every statement may fail; a statement that fails does nothing, and a transaction that is
-- not committed leaves the tables as they were. The training command keeps a trail of the calls
-- that change files; where its rows are compared with the sessions, the resolver of countries is a
-- function of the address. `Shell.Flow.IsCalm` says that no write to the pty or the terminal fails
-- and no deadline passes.
--
-- Fuel: the command loop has one round more than there are readings, and each round that does not
-- end the loop takes one; the challenge has `OTPRetries` tries; the digits of a number n have n + 1
-- rounds. The loops of the shell, the readers, the store and the daemon recur on the bytes, the
-- reads, the rows and the connections that they are given.
--
-- Not modelled: the ioctl numbers of the termios files, the signals, the sizes of the terminal and
-- the wiring of the commands in go/cmd/ssentry/main.go, the credentials of a peer: system calls and
-- calls of libraries. The sockets, JSON, YAML, the SQL driver, the editing of a line by
-- golang.org/x/term, the MaxMind and the TOTP library are parameters. The proxy of the keys and the
-- reader of the shell's output run at once in the code and are separate functions here, so which
-- read of the proxy is the last that begins before the marker comes, and which keys it still takes,
-- is an argument; the connections of the daemon are served one behind the other but for `Otp.Race`.
-- Messages that are only printed are left out, but for the one on an incomplete line, which is on
-- the trace. The Python daemon and trainer and the packaging are not in Go.
pub mod Base
pub mod Text
pub mod Result
pub mod Rules
pub mod Complete
pub mod Path
pub mod Username
pub mod Decide
pub mod Feature
pub mod Training
pub mod Ports
pub mod Store
pub mod LineReader
pub mod Repl
pub mod Otp
pub mod Adapters
pub mod Setup
pub mod Train
pub mod Shell
pub mod Tests
