-- ===== src/Background/Capabilities.antt =====
-- background/store.go: what a client may do with a job, for one job (Job) and for a list (ListJobs).
use videocms.Base.{Bool, true, false, ◌&&◌, ◌||◌, ltb, if◌then◌else◌}
use videocms.Background.Types.{Job, JobStatus}
use videocms.Background.Database.{Db}
use videocms.Background.Control.{pausable_job_status, is_pause_status, committing_count}

pub record Capabilities : Type 0 where
  pub can_cancel : Bool
  pub can_pause : Bool
  pub can_resume : Bool

unfoldable pub cancellable_job_status : JobStatus → Bool
cancellable_job_status JobStatus.queued = true
cancellable_job_status JobStatus.running = true
cancellable_job_status JobStatus.retry_wait = true
cancellable_job_status JobStatus.pause_requested = true
cancellable_job_status JobStatus.paused = true
cancellable_job_status _ = false

unfoldable pub job_capabilities : Job → Capabilities
unfolding cancellable_job_status pausable_job_status
job_capabilities job = record {
  can_cancel = cancellable_job_status job.status;
  can_pause = job.pausable && pausable_job_status job.status;
  can_resume = is_pause_status job.status;
}

-- populateCancellationCapabilities, for one row of a list.
unfoldable pub listed_capabilities : Db → Job → Capabilities
unfolding job_capabilities committing_count
listed_capabilities db job =
    let c = job_capabilities job in
    if (c.can_cancel || c.can_pause) && ltb 0 (committing_count job.id db)
    then record c { can_cancel = false; can_pause = false }
    else c

-- The same in the detail view of Job, which looks at the commit for `can_cancel` only.
unfoldable pub detail_capabilities : Db → Job → Capabilities
unfolding job_capabilities committing_count
detail_capabilities db job =
    let c = job_capabilities job in
    if c.can_cancel && ltb 0 (committing_count job.id db)
    then record c { can_cancel = false }
    else c
