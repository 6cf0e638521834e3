-- ===== src/Operations.antt =====
-- services/operational_service.py: the counters of `OperationalService`, and the suspensions that
-- close the gate for new entries.
pub mod State
pub mod Suspension
pub mod Records
pub mod Heartbeat
pub mod Kept
pub mod Steps
pub mod Gate
mod Tests
