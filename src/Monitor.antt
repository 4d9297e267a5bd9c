-- ===== src/Monitor.antt =====
-- internal/monitor: the trailing stop, its decision (Trailing) and the pass over the open positions
-- (Tick).
pub mod Trailing
pub mod Tick
pub mod Users
