-- ===== src/Superchan.antt =====
-- The package superchan (superchan/superchan.go), a part in each child.
pub mod State
pub mod Goroutines
pub mod Rundeferred
pub mod Main
pub mod Reader
pub mod Flags
pub mod Wait
pub mod Double
pub mod Pair
pub mod Defers
pub mod Life
mod Tests
mod LoopTests
mod InputTests
mod DoubleTests
mod PairTests
mod LifeTests
