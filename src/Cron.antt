-- ===== src/Cron.antt =====
-- The crontab schedules of cron pools (sapi/fpmng/fpm/fpm_cron_schedule.c): the parser of one
-- item, of a field and of a whole expression, the match of a broken-down time, and the search for
-- the next run.
pub mod Outcome
pub mod Item
pub mod Field
pub mod Schedule
pub mod Next
mod Tests
