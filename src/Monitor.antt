-- ===== src/Monitor.antt =====
-- udev-monitor.c: the queue between the monitor's thread and its client, and the thread.
pub mod Queue
pub mod Delivery
pub mod Thread
pub mod Drain
pub mod System
pub mod Handle
pub mod Pipe
