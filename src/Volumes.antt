-- ===== src/Volumes.antt =====
-- kextd_watchvol.c: the volumes that kextd watches, the locks that kextcache takes on them, and the
-- lock that shutdown and reboot take on all of them.
pub mod Data
pub mod Rebuild
pub mod Locks
pub mod Exclusion
pub mod Safety
pub mod Handlers
pub mod Handover
pub mod Requests
pub mod Deaths
pub mod Reach
pub mod Order
pub mod Limits
mod Tests
