-- ===== src/PatchApply.antt =====
-- The application of patches (patchapply/): the paths of a batch, the file system it works on, and the
-- operations Apply, Rollback and Verify.
pub mod Paths
pub mod Escapes
pub mod Disk
pub mod Files
pub mod Writing
pub mod Making
pub mod Reading
pub mod Restore
pub mod Undoing
pub mod Batch
pub mod Applying
pub mod Attempts
pub mod Settling
pub mod AllOrNothing
pub mod Approved
pub mod Landing
pub mod Capturing
pub mod Landed
