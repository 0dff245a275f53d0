-- ===== src/Supervisor.antt =====
-- The restart policy of supervisor pools (sapi/fpmng/fpm/fpm_pool_supervisor.c): what is decided
-- between two runs of a script, and the count of the copies whose one run is over.
pub mod State
pub mod Scan
pub mod Policy
mod Tests
