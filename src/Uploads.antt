-- ===== src/Uploads.antt =====
-- The resumable uploads of services/tusupload/service.go and shared.go. The HTTP and tus protocol,
-- the tokens and the consumers' health are left out; each child models a group of the operations.
pub mod Tools
pub mod Limits
pub mod Guests
pub mod Create
pub mod Events
pub mod Expiry
pub mod Finalize
pub mod Ingest
pub mod Videos
pub mod Imports
pub mod Stored
pub mod Quota
pub mod Created
pub mod Tame
pub mod Edits
pub mod Within
pub mod Histories
pub mod Taking
pub mod Progress
pub mod Late
pub mod Reservation
pub mod Cleanup
pub mod Again
pub mod Finalized
