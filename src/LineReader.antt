-- ===== src/LineReader.antt =====
-- go/cmd/ssentry/linereader.go: the line editor around the terminal library. A string is a list of
-- bytes here, and a position in it is at most its length.
pub mod Prefix
pub mod Words
pub mod Files
pub mod Extends
pub mod Cursor
pub mod Kept
pub mod Vocabulary
pub mod Bytes
pub mod Delivery
pub mod Lines
