-- ===== src/Execution.antt =====
-- execution.py: how `FuturesExecutor` rounds quantities and prices, finds an accepted leverage, and
-- reads the protection orders of a position. The exchange's answers are arguments.
pub mod Rounding
pub mod Leverage
pub mod Protection
pub mod Fills
pub mod Entries
pub mod Replace
pub mod Watch
mod Tests
