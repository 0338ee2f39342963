-- ===== src/Httpserver.antt =====
-- The package httpserver (httpserver/httpserver.go), a part in each child.
pub mod State
pub mod Routes
pub mod Listen
pub mod Refresh
pub mod Invariant
pub mod Changes
pub mod Serve
pub mod Order
pub mod Stopped
pub mod Cycle
pub mod Json
mod Tests
mod ServeTests
mod CycleTests
