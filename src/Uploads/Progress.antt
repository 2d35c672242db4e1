-- ===== src/Uploads/Progress.antt =====
-- The bytes that the events of services/tusupload/service.go log, and an event that comes late.
use videocms.Base.{
  ℕ, ◌+◌, ◌-◌, ◌≤◌, ◌≡◌, refl, sym, ap, subst, ◌∙◌, inl, inr, true, false, some, List, [], ◌∷◌,
  arith, ◌==◌, ==_iff, ltb, if◌then◌else◌, first, first-hit, first-update_where, sum_of,
  sum_of-append, Bool-cases,
}
use videocms.Media.{UploadSession, UploadLog, Store, has_tus_id, has_session_id, update_session}
use videocms.Uploads.Tools.{EventInfo}
use videocms.Uploads.Guests.{is_final_kind}
use videocms.Uploads.Events.{
  update_session_from_event, complete_session_from_event, advance, track_progress, track_upload,
}

-- The bytes logged for a session.
abbrev pub logged : ℕ → Store → ℕ
logged id store =
    sum_of (λ (l : UploadLog). if l.upload_session_id == id then l.bytes else 0) store.logs

track_upload-logged :
    (user_id id bytes : ℕ) (store : Store)
    → logged id (track_upload user_id 0 id bytes store) ≡ logged id store + bytes
unfolding track_upload sum_of
track_upload-logged user_id id bytes store = elim (Bool-cases (bytes == 0)) [
  | inl none_new ↦ rw (track_upload, none_new) (omega (arith, (==_iff bytes 0).0 none_new))
  | inr more ↦
      rw (track_upload, more)
        (omega (
          arith,
          sum_of-append (λ (l : UploadLog). if l.upload_session_id == id then l.bytes else 0)
              store.logs
              (record { user_id = user_id; file_id = 0; upload_session_id = id; bytes = bytes }
                ∷ []),
          own,
        ))
]
  where
    own : (if id == id then bytes else 0) ≡ bytes
    own = rw ((==_iff id id).1 refl) refl

track_progress-logged :
    (info : EventInfo) (session : UploadSession) (store : Store)
    → is_final_kind session.kind ≡ false
    → session.offset ≤ info.offset
    → logged session.id (track_progress info session store) + session.offset
      ≡ logged session.id store + info.offset
unfolding track_progress
track_progress-logged info session store partial le =
    elim (Bool-cases (ltb session.offset info.offset)) [
      | inl ahead ↦
          rw (track_progress, partial, ahead)
            (omega (
              arith,
              le,
              track_upload-logged session.user_id session.id (info.offset - session.offset) store,
            ))
      | inr behind ↦ rw (track_progress, partial, behind) (ground (arith, behind, le))
    ]

pub track_progress-sessions :
    (info : EventInfo) (session : UploadSession) (store : Store)
    → (track_progress info session store).sessions ≡ store.sessions
unfolding track_progress track_upload
track_progress-sessions info session store = ground arith

-- The row of an upload, after an edit of it that keeps its identifiers.
edited :
    (tus_id : ℕ) (f : UploadSession → UploadSession) (store mid : Store) {session : UploadSession}
    → ((s : UploadSession) → ((f s).tus_id ≡ s.tus_id) × ((f s).deleted ≡ s.deleted))
    → mid.sessions ≡ store.sessions
    → first (has_tus_id tus_id) store.sessions ≡ some session
    → first (has_tus_id tus_id) (update_session session.id f mid).sessions ≡ some (f session)
unfolding update_session
edited tus_id f store mid {session} keep same found = rw same (
    first-update_where (has_tus_id tus_id) (has_session_id session.id) f kept store.sessions found
    ∙ hit)
  where
    kept : (s : UploadSession) → has_tus_id tus_id (f s) ≡ has_tus_id tus_id s
    kept s = rw ((keep s).0, (keep s).1) refl

    hit : some (if has_session_id session.id session then f session else session) ≡ some (f session)
    hit = ground (arith, first-hit (has_tus_id tus_id) store.sessions found)

-- The session's row, and that its events log what they add.
record Follows (info : EventInfo) (session : UploadSession) (store store' : Store) : Type 0 where
  row :
      (s : UploadSession) × (first (has_tus_id info.id) store'.sessions ≡ some s)
      × (s.offset ≡ info.offset)
      × (s.id ≡ session.id)
      × (s.kind ≡ session.kind)
  bytes : logged session.id store' + session.offset ≡ logged session.id store + info.offset

update_session_from_event-Follows :
    (info : EventInfo) (store : Store) {session : UploadSession}
    → first (has_tus_id info.id) store.sessions ≡ some session
    → is_final_kind session.kind ≡ false
    → session.offset ≤ info.offset
    → Follows info session store (update_session_from_event true info store)
unfolding update_session_from_event
update_session_from_event-Follows info store {session} found partial le =
    rw (update_session_from_event, found)
      (record {
        row = (
          advance info session,
          edited info.id (advance info) store (track_progress info session store)
              (unfold advance in (λ s. (refl, refl))) (track_progress-sessions info session store)
              found,
          unfold advance in refl,
          unfold advance in refl,
          unfold advance in refl,
        );
        bytes = unfold update_session in track_progress-logged info session store partial le;
      })

-- Events of progress in the order of the list, and then the event that the upload is complete.
abbrev pub all_events : ℕ → List EventInfo → EventInfo → Store → Store
all_events now [] last store = complete_session_from_event now last store
all_events now (e ∷ rest) last store =
    all_events now rest last (update_session_from_event true e store)

-- The events are of one upload, and their offsets do not fall.
abbrev pub IsRising : ℕ → ℕ → List EventInfo → EventInfo → Type 0
IsRising tus_id from [] last = (last.id ≡ tus_id) × (from ≤ last.offset)
IsRising tus_id from (e ∷ rest) last =
    ((e.id ≡ tus_id) × (from ≤ e.offset)) × IsRising tus_id e.offset rest last

complete_session_from_event-logged :
    (now : ℕ) (info : EventInfo) (store : Store) {session : UploadSession}
    → first (has_tus_id info.id) store.sessions ≡ some session
    → is_final_kind session.kind ≡ false
    → session.offset ≤ info.offset
    → logged session.id (complete_session_from_event now info store) + session.offset
      ≡ logged session.id store + info.offset
unfolding complete_session_from_event
complete_session_from_event-logged now info store {session} found partial le =
    rw (complete_session_from_event, found)
      (unfold update_session in track_progress-logged info session store partial le)

-- If the events of an upload that is not a joined one come in the order of their offsets, the
-- completion last, then the bytes logged for its session grow by exactly what its offset grows.
pub all_events-logged :
    (now tus_id : ℕ) (events : List EventInfo) (last : EventInfo) (store : Store)
    {session : UploadSession}
    → first (has_tus_id tus_id) store.sessions ≡ some session
    → is_final_kind session.kind ≡ false
    → IsRising tus_id session.offset events last
    → logged session.id (all_events now events last store) + session.offset
      ≡ logged session.id store + last.offset
all_events-logged now tus_id [] last store {session} found partial (same, le) =
    complete_session_from_event-logged now last store
      (subst (λ i. first (has_tus_id i) store.sessions ≡ some session) (sym same) found) partial le
all_events-logged now tus_id (e ∷ rest) last store {session} found partial ((same, le), rising) =
    let step =
      update_session_from_event-Follows e store
        (subst (λ i. first (has_tus_id i) store.sessions ≡ some session) (sym same) found) partial
        le in
    let (s, row, offset, id, kind) = step.row in
    let store' = update_session_from_event true e store in
    let ih =
      all_events-logged now tus_id rest last store' {session = s}
        (subst (λ i. first (has_tus_id i) store'.sessions ≡ some s) same row)
        (ap is_final_kind kind ∙ partial)
        (subst (λ o. IsRising tus_id o rest last) (sym offset) rising) in
    omega (
      arith,
      step.bytes,
      offset,
      subst
          (λ i.
            logged i (all_events now rest last store') + s.offset ≡ logged i store' + last.offset)
          id ih,
    )
