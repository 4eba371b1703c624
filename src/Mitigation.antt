-- ===== src/Mitigation.antt =====
-- mitigation.py: backup-first application and rollback of the doctor's triggers.
pub mod Gate
pub mod Backup
pub mod Manifest
pub mod Commit
pub mod Apply
pub mod Rollback
pub mod Quiet
pub mod Order
