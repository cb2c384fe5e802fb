-- ===== src/Train.antt =====
-- go/cmd/ssentry/train.go: the training command. The Python trainer is a separate process, a parameter.
pub mod Python
pub mod Job
pub mod Publish
pub mod History
pub mod Command
