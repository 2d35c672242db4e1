-- ===== src/Background.antt =====
-- The durable background-job runtime, background/*.go. Each child models a group of its operations.
pub mod Types
pub mod Text
pub mod Database
pub mod Reduce
pub mod Errors
pub mod Runtime
pub mod Enqueue
pub mod Control
pub mod TaskControl
pub mod Claim
pub mod Finish
pub mod Commit
pub mod Recovery
pub mod Retention
pub mod Capabilities
pub mod Consistent
pub mod Local
pub mod Operations
pub mod Status
pub mod Lookup
pub mod Fence
pub mod Offers
pub mod Retries
pub mod Endings
pub mod Scheduling
pub mod Restart
pub mod Cleanup
pub mod TaskEdits
pub mod Histories
pub mod Stranded
pub mod Intake
pub mod Idempotent
pub mod NewJobs
pub mod Schedules
pub mod Timely
pub mod Summaries
