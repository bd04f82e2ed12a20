-- ===== src/Cron.antt =====
-- background/scheduler.go and background/crontabfile.go: cron schedules, the jobs that they start,
-- and the crontab file.
pub mod Field
pub mod Marks
pub mod Schedule
pub mod Elements
pub mod Rule
pub mod JobLine
pub mod Crontab
pub mod Scheduler
pub mod Flights
pub mod Agree
pub mod Reload
pub mod Written
mod Tests
