-- ===== src/CrashBackoff.antt =====
-- The crash backoff of pools whose children fail fast
-- (sapi/fpmng/fpm/fpm_crash_backoff.c).
pub mod Time
pub mod Delay
pub mod Entry
mod Tests
