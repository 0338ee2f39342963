-- ===== src/Cancellable.antt =====
-- The package cancellable: the contexts that it rests on, cancellable.go and cancelchan.go.
pub mod Context
pub mod Handle
pub mod Chan
mod Tests
