-- ===== src/Cli.antt =====
-- crates/conductr: the command line tool. Glob patterns, the idle scan, cron expressions and the crontab.
pub mod Idle
pub mod Glob
pub mod Cron
pub mod Crontab
mod Examples
