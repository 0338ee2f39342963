-- ===== src/Stackerr.antt =====
-- The package stackerr: stackerr/stacktracers.go (where an error was made) and stackerr/stackerror.go
-- (errors with that place, and their format). A text is the list of its bytes.
pub mod Paths
pub mod Errors
pub mod Format
mod Tests
