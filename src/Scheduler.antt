-- ===== src/Scheduler.antt =====
-- scripts/scheduled_control_daemon.py: the daemon that brings the native schedulers in line with the
-- registry of scheduled activities.
pub mod Registry
pub mod Retry
pub mod Cron
pub mod Systemd
pub mod History
pub mod Tick
