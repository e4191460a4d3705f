-- ===== src/Jobs.antt =====
-- internal/jobs with its tables of jobs and of results in internal/storage.
pub mod Repo
pub mod Submit
pub mod Handler
pub mod Results
pub mod Requeue
pub mod Export
pub mod Lifecycle
pub mod Manager
