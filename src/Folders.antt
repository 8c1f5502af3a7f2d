-- ===== src/Folders.antt =====
-- What the engine keeps about folders: common/folderDeletionManager.go and
-- ste/folderCreationTracker.go.
pub mod Deletion
pub mod DeletionLaws
pub mod Creation
pub mod CreationLaws
