-- ===== src/Uploads/Edits.antt =====
-- What the operations of services/tusupload/service.go change of the tables that the quota reads: rows
-- of sessions, by edits that are tame.
use videocms.Base.{
  ℕ, ◌≡◌, refl, ap, subst, ◌⊎◌, inl, inr, Bool, true, false, ◌&&◌, String, arith, ◌==◌,
  if◌then◌else◌, first, update_where, Option-cases, count_where,
}
use videocms.Media.{
  UploadSession, UploadStatus, Link, Store, Reply, accept, unless, ◌>>◌, has_session_id, has_tus_id,
  update_session,
}
use videocms.Uploads.Tools.{EventInfo}
use videocms.Uploads.Created.{then-accept}
use videocms.Uploads.Events.{
  update_session_from_event, complete_session_from_event, terminate_session, advance, complete,
  end_session, track_progress, track_upload,
}
use videocms.Uploads.Finalize.{
  transition_to_importing, begin_import, fail_finalize, fail, complete_finalize, finish, of_group,
  is_ready,
}
use videocms.Uploads.Tame.{
  IsTame, advance-IsTame, complete-IsTame, end_session-IsTame, begin_import-IsTame, fail-IsTame,
  finish-IsTame,
}

-- A change of sessions by a tame edit, or none.
pub record Edit (store store' : Store) : Type 0 where
  pub p : UploadSession → Bool
  pub f : UploadSession → UploadSession
  pub tame : IsTame f
  pub users : store'.users ≡ store.users
  pub links : store'.links ≡ store.links
  pub files : store'.files ≡ store.files
  pub sessions : store'.sessions ≡ update_where p f store.sessions

pub update_session-Edit :
    (id : ℕ) (f : UploadSession → UploadSession) (store mid : Store)
    → IsTame f
    → mid.users ≡ store.users
    → mid.links ≡ store.links
    → mid.files ≡ store.files
    → mid.sessions ≡ store.sessions
    → Edit store (update_session id f mid)
unfolding update_session
update_session-Edit id f store mid tame users links files sessions = record {
  p = has_session_id id;
  f = f;
  tame = tame;
  users = users;
  links = links;
  files = files;
  sessions = ap (update_where (has_session_id id) f) sessions;
}

track_progress_lem :
    (info : EventInfo) (session : UploadSession) (store : Store)
    → let mid = track_progress info session store in
      (mid.users ≡ store.users)
      × (mid.links ≡ store.links)
      × (mid.files ≡ store.files)
      × (mid.sessions ≡ store.sessions)
unfolding track_progress track_upload
track_progress_lem info session store = (ground arith, ground arith, ground arith, ground arith)

pub update_session_from_event-Edit :
    (track : Bool) (info : EventInfo) (store : Store)
    → let store' = update_session_from_event track info store in
      (store' ≡ store) ⊎ Edit store store'
unfolding update_session_from_event
update_session_from_event-Edit track info store =
    elim (Option-cases (first (has_tus_id info.id) store.sessions)) [
      | inl missing ↦ inl (rw (update_session_from_event, missing) refl)
      | inr (session, found) ↦ rw (update_session_from_event, found) (inr (tracked track session))
    ]
  where
    tracked :
        (track : Bool) (session : UploadSession)
        → Edit store (
            update_session session.id
              (advance info)
              (if track then track_progress info session store else store))
    tracked true session =
        let (users, links, files, sessions) = track_progress_lem info session store in
        update_session-Edit session.id (advance info) store (track_progress info session store)
          (advance-IsTame info) users links files sessions
    tracked false session =
        update_session-Edit session.id (advance info) store store (advance-IsTame info) refl refl
          refl refl

pub complete_session_from_event-Edit :
    (now : ℕ) (info : EventInfo) (store : Store)
    → let store' = complete_session_from_event now info store in
      (store' ≡ store) ⊎ Edit store store'
unfolding complete_session_from_event
complete_session_from_event-Edit now info store =
    elim (Option-cases (first (has_tus_id info.id) store.sessions)) [
      | inl missing ↦ inl (rw (complete_session_from_event, missing) refl)
      | inr (session, found) ↦
          let (users, links, files, sessions) = track_progress_lem info session store in
          rw (complete_session_from_event, found)
            (inr (
              update_session-Edit session.id (complete now info) store
                (track_progress info session store) (complete-IsTame now info) users links files
                sessions))
    ]

pub terminate_session-Edit :
    (now tus_id : ℕ) (store : Store)
    → let store' = terminate_session now tus_id store in (store' ≡ store) ⊎ Edit store store'
unfolding terminate_session
terminate_session-Edit now tus_id store =
    elim (Option-cases (first (has_tus_id tus_id) store.sessions)) [
      | inl missing ↦ inl (rw (terminate_session, missing) refl)
      | inr (session, found) ↦
          rw (terminate_session, found)
            (inr (
              update_session-Edit session.id (end_session now UploadStatus.canceled) store store
                (end_session-IsTame now UploadStatus.canceled) refl refl refl refl))
    ]

pub transition_to_importing-Edit :
    (session : UploadSession) (store : Store) {store' : Store}
    → transition_to_importing session store ≡ accept store'
    → Edit store store'
unfolding transition_to_importing
transition_to_importing-Edit session store {store'} e =
    let ready = λ (s : UploadSession). has_session_id session.id s && is_ready s.status in
    let (_, taken) =
      then-accept
        (unless (is_ready session.status) 409 >> unless (count_where ready store.sessions == 1) 409)
        _ e in
    subst (Edit store) (stored taken) (record {
      p = ready;
      f = begin_import;
      tame = begin_import-IsTame;
      users = refl;
      links = refl;
      files = refl;
      sessions = refl;
    })
  where
    stored : {a b : Store} → ◌≡◌ {A = Reply Store} (accept a) (accept b) → a ≡ b
    stored h = cc

pub fail_finalize-Edit :
    (session : UploadSession) (message : String) (store : Store)
    → Edit store (fail_finalize session message store)
unfolding fail_finalize
fail_finalize-Edit session message store =
    update_session-Edit session.id (fail message) store store (fail-IsTame message) refl refl refl
      refl

pub complete_finalize-Edit :
    (stuck : String → Bool) (now : ℕ) (session : UploadSession) (link : Link) (store : Store)
    → Edit store (complete_finalize stuck now session link store)
unfolding complete_finalize
complete_finalize-Edit stuck now session link store = record {
  p = of_group session;
  f = finish now link;
  tame = finish-IsTame now link;
  users = refl;
  links = refl;
  files = refl;
  sessions = refl;
}
