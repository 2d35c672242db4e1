-- ===== src/Uploads/Events.antt =====
-- What the events of tusd do to a session: updateSessionFromEvent, completeSessionFromEvent and
-- terminateSession of services/tusupload/service.go. Four goroutines consume the four kinds of
-- event, so events of different kinds come in any order.
use videocms.Base.{
  ℕ, ◌-◌, Bool, true, not, ◌&&◌, none, some, [], ◌∷◌, ◌++◌, ◌==◌, ltb, if◌then◌else◌, first,
}
use videocms.Media.{UploadSession, UploadStatus, Store, has_tus_id, update_session}
use videocms.Uploads.Tools.{EventInfo}
use videocms.Uploads.Guests.{is_final_kind}

unfoldable pub track_upload : ℕ → ℕ → ℕ → ℕ → Store → Store
track_upload user_id file_id session_id bytes store = if bytes == 0 then store else record store {
  logs =
      store.logs
      ++ record {
        user_id = user_id;
        file_id = file_id;
        upload_session_id = session_id;
        bytes = bytes;
      }
        ∷ [];
}

-- The bytes that have come since the session was stored.
unfoldable pub track_progress : EventInfo → UploadSession → Store → Store
unfolding track_upload
track_progress info session store =
    if not (is_final_kind session.kind) && ltb session.offset info.offset
    then track_upload session.user_id 0 session.id (info.offset - session.offset) store
    else store

unfoldable pub advance : EventInfo → UploadSession → UploadSession
advance info s = record s {
  offset = info.offset;
  storage_path = info.storage_path;
  info_path = info.info_path;
  status = if ltb 0 info.offset then UploadStatus.uploading else s.status;
}

unfoldable pub update_session_from_event : Bool → EventInfo → Store → Store
unfolding track_progress advance update_session
update_session_from_event track_bytes info store =
    elim (first (has_tus_id info.id) store.sessions) [
      | none ↦ store
      | some session ↦
          update_session session.id (advance info)
            (if track_bytes then track_progress info session store else store)
    ]

unfoldable pub complete : ℕ → EventInfo → UploadSession → UploadSession
complete now info s = record s {
  status = UploadStatus.uploaded;
  offset = info.offset;
  storage_path = info.storage_path;
  info_path = info.info_path;
  completed_at = some now;
}

unfoldable pub complete_session_from_event : ℕ → EventInfo → Store → Store
unfolding track_progress complete update_session
complete_session_from_event now info store = elim (first (has_tus_id info.id) store.sessions) [
  | none ↦ store
  | some session ↦ update_session session.id (complete now info) (track_progress info session store)
]

-- The updates, and the soft deletion.
unfoldable pub end_session : ℕ → UploadStatus → UploadSession → UploadSession
end_session now status s = record s { status = status; expires_at = some now; deleted = true }

unfoldable pub terminate_session : ℕ → ℕ → Store → Store
unfolding end_session update_session
terminate_session now tus_id store = elim (first (has_tus_id tus_id) store.sessions) [
  | none ↦ store
  | some session ↦ update_session session.id (end_session now UploadStatus.canceled) store
]
