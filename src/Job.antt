-- ===== src/Job.antt =====
-- How a job counts its transfers and its parts: ste/mgr-JobPartMgr.go (a part),
-- ste/mgr-JobMgr.go (the job) and ste/jobStatusManager.go (the summary that the front end reads).
pub mod Part
pub mod PartLaws
pub mod Manager
pub mod ManagerLaws
pub mod Lifecycle
pub mod Missing
pub mod Summary
pub mod SummaryLaws
pub mod TierLaws
