-- ===== src/Strategy.antt =====
-- strategy.py: the signal engines, shared by the live runtime and the backtest.
pub mod Eval
pub mod Frame
pub mod Bos
pub mod Nr4
pub mod Short
pub mod Profile
pub mod Pullback
pub mod Score
pub mod Signals
