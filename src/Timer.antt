-- ===== src/Timer.antt =====
-- libtimer: points in time, calendar dates and crontab rules.
pub mod Time
pub mod Date
pub mod Crontab
