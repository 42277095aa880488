-- ===== src/CommandLine.antt =====
-- src/platform/windows/process_tree.rs: the command line of a new process. A text is the list of
-- its UTF-16 units.
pub mod Quoting
pub mod Splitting
mod Escape
pub mod Encoded
pub mod ProgramName
pub mod RoundTrip
