-- ===== src/Positions.antt =====
-- services/position_service.py: which positions are active, the test for any position or entry
-- order, and the cache of the exchange's positions. A failed call of the exchange is `none`.
pub mod Active
pub mod Symbols
pub mod Cache
mod Tests
