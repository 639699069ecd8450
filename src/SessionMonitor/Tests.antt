-- ===== src/SessionMonitor/Tests.antt =====
-- A monitor with a tick of one second and a default timeout of 30 ticks, that ticks three times.
use million.SessionMonitor.{SessionMonitor, new_monitor}

abbrev monitor : SessionMonitor
monitor = new_monitor 1 30
