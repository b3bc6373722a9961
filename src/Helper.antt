-- ===== src/Helper.antt =====
-- update_boot.c: the update of the helper partitions that start a volume.
pub mod Data
pub mod Rps
pub mod Labels
pub mod Booters
pub mod Update
pub mod Safe
pub mod Exchange
pub mod Kept
pub mod Reverted
pub mod Steps
pub mod Outcome
pub mod Stages
pub mod Phases
pub mod Crash
pub mod Loop
pub mod Restore
pub mod Rollback
pub mod Stranded
pub mod Erase
pub mod Erases
pub mod Erased
mod Tests
