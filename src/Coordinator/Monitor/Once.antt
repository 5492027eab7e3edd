-- ===== src/Coordinator/Monitor/Once.antt =====
-- The monitor acts once in each phase of a round (coordinator/src/run.rs).
use blindjoin.Coordinator.Monitor.{Monitor}
