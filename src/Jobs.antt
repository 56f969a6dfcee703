-- ===== src/Jobs.antt =====
-- internal/jobs: the job registry, its database and the sweep over it.
pub mod Store
pub mod Reconcile
pub mod Liveness
pub mod Job
pub mod Registry
