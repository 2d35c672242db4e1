-- ===== src/Uploads/Late.antt =====
-- A progress event that is consumed after the completion of its upload (services/tusupload/service.go
-- consumes the two kinds in two goroutines), and the finalization that follows.
use videocms.Base.{
  ℕ, ◌<◌, ◌≡◌, refl, sym, subst, ◌∙◌, Bool, true, false, none, some, String, arith, ◌==◌, ==_iff,
  first, first-hit, first-update_where, first_narrow, if◌then◌else◌,
}
use videocms.Media.{
  UploadSession, Store, accept, refuse, has_tus_id, has_session_id, update_session,
}
use videocms.Background.Text.{Library}
use videocms.Background.Database.{Db}
use videocms.Uploads.Tools.{Settings, Tools, Context, EventInfo}
use videocms.Uploads.Limits.{is_partial_kind}
use videocms.Uploads.Guests.{authorize_shared_session}
use videocms.Uploads.Events.{
  update_session_from_event, complete_session_from_event, advance, complete, track_progress,
}
use videocms.Uploads.Expiry.{is_expired, is_past}
use videocms.Uploads.Ingest.{JobTexts, enqueue_finalize, finalizable, is_complete}
use videocms.Uploads.Progress.{track_progress-sessions}

-- The row of an upload, deleted or not.
abbrev any_of : ℕ → UploadSession → Bool
any_of tus_id s = s.tus_id == tus_id

-- The row after an edit of it, where it is live.
any_edited :
    (tus_id : ℕ) (f : UploadSession → UploadSession) (store mid : Store) {session : UploadSession}
    → ((s : UploadSession) → (f s).tus_id ≡ s.tus_id)
    → mid.sessions ≡ store.sessions
    → first (any_of tus_id) store.sessions ≡ some session
    → session.deleted ≡ false
    → first (any_of tus_id) (update_session session.id f mid).sessions ≡ some (f session)
unfolding update_session
any_edited tus_id f store mid {session} keep same found live = rw same (
    first-update_where (any_of tus_id) (has_session_id session.id) f (λ s. rw (keep s) refl)
      store.sessions found
    ∙ hit)
  where
    hit : some (if has_session_id session.id session then f session else session) ≡ some (f session)
    hit = ground (arith, live)

scoped :
    (tus_id : ℕ) (store : Store) {session : UploadSession}
    → first (any_of tus_id) store.sessions ≡ some session
    → session.deleted ≡ false
    → first (has_tus_id tus_id) store.sessions ≡ some session
scoped tus_id store {session} found live =
    first_narrow (any_of tus_id) (has_tus_id tus_id) store.sessions (λ s h. ground (arith, h)) found
      (ground (arith, live, first-hit (any_of tus_id) store.sessions found))

module _ (now : ℕ) (last late : EventInfo) (same : late.id ≡ last.id) (track : Bool) (store : Store)
    {session : UploadSession} (found : first (any_of last.id) store.sessions ≡ some session)
    (live : session.deleted ≡ false) where
  completed :
      first (any_of last.id) (complete_session_from_event now last store).sessions
      ≡ some (complete now last session)
  unfolding complete_session_from_event
  completed =
      rw (complete_session_from_event, scoped last.id store found live)
        (any_edited last.id (complete now last) store (track_progress last session store)
          (λ s. unfold complete in refl) (track_progress-sessions last session store) found live)

  overwritten :
      let after =
        update_session_from_event track late (complete_session_from_event now last store) in
      first (any_of last.id) after.sessions ≡ some (advance late (complete now last session))
  unfolding update_session_from_event
  overwritten =
      let store' = complete_session_from_event now last store in
      let live' : (complete now last session).deleted ≡ false = unfold complete in live in
      rw
        (
          update_session_from_event,
          subst (λ i. first (has_tus_id i) store'.sessions ≡ some (complete now last session))
              (sym same) (scoped last.id store' completed live'),
        )
        (tracked store' track completed live')
    where
      tracked :
          (store' : Store) (track : Bool) {row : UploadSession}
          → first (any_of last.id) store'.sessions ≡ some row
          → row.deleted ≡ false
          → first
              (any_of last.id)
              (update_session row.id
                (advance late)
                (if track then track_progress late row store' else store')).sessions
            ≡ some (advance late row)
      tracked store' true {row} e on =
          any_edited last.id (advance late) store' (track_progress late row store')
            (λ s. unfold advance in refl) (track_progress-sessions late row store') e on
      tracked store' false e on =
          any_edited last.id (advance late) store' store' (λ s. unfold advance in refl) refl e on

  -- If a progress event of a positive offset is consumed after the completion of its upload, then the
  -- owner, who finalizes the complete upload before it expires, is refused with a conflict, and
  -- nothing changes: the upload stands as one that still uploads.
  pub late_progress-refused :
      (lib : Library) (texts : JobTexts) (tools : Tools) (settings : Settings)
      (stuck : String → Bool) (now' job_id : ℕ) (uuid : ℕ → ℕ) (context : Context) (db : Db)
      → 0 < late.offset
      → context.share ≡ none
      → is_partial_kind session.kind ≡ false
      → is_past now' session.expires_at ≡ false
      → let after =
          update_session_from_event track late (complete_session_from_event now last store) in
        enqueue_finalize lib texts tools settings stuck now' job_id uuid context last.id
          session.user_id after db
        ≡ (after, db, refuse 409)
  unfolding enqueue_finalize
  late_progress-refused lib texts tools settings stuck now' job_id uuid context db moved owner
        joined timely =
      let after =
        update_session_from_event track late (complete_session_from_event now last store) in
      let row = advance late (complete now last session) in
      let checked : finalizable context last.id session.user_id after ≡ accept row =
        unfold finalizable authorize_shared_session advance complete in
        rw (overwritten, owner, joined, (==_iff session.user_id session.user_id).1 refl) refl in
      let fresh : is_expired now' row ≡ false =
        unfold is_expired advance complete in rw timely refl in
      let uploading : is_complete row.status ≡ false =
        unfold is_complete advance complete in ground (arith, moved) in
      rw (enqueue_finalize, checked, fresh, uploading) refl
