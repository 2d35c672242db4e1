-- ===== src/Uploads/Finalized.antt =====
-- finalizeContext of services/tusupload/service.go on an upload that completeFinalize has completed.
use text.Mathlib.TextPositions.{eq_refl}
use videocms.Base.{
  ℕ, ◌<◌, ◌≡◌, refl, ◌∙◌, Bool, true, false, not, ◌&&◌, some, String, arith, ◌==◌, ==_iff, ltb,
  first, first-update_where, if◌then◌else◌,
}
use videocms.Media.{UploadSession, Link, Store, accept}
use videocms.Uploads.Tools.{Tools}
use videocms.Uploads.Limits.{is_partial_kind}
use videocms.Uploads.Finalize.{CreateFile, complete_finalize, finalize_context, finish, of_group}

module _ (stuck : String → Bool) (now : ℕ) (session : UploadSession) (link : Link) (store : Store)
    (found : first (λ (s : UploadSession). s.tus_id == session.tus_id) store.sessions
      ≡ some session)
    (whole : is_partial_kind session.kind ≡ false) (known : 0 < link.id)
    (stored : first (λ (l : Link). l.id == link.id && not l.deleted) store.links ≡ some link) where
  finished :
      first
        (λ (s : UploadSession). s.tus_id == session.tus_id)
        (complete_finalize stuck now session link store).sessions
      ≡ some (finish now link session)
  unfolding complete_finalize finish of_group
  finished =
      first-update_where (λ (s : UploadSession). s.tus_id == session.tus_id) (of_group session)
        (finish now link) (λ s. refl) store.sessions found
      ∙ own
    where
      own :
          some (if of_group session session then finish now link session else session)
          ≡ some (finish now link session)
      own =
          rw (eq_refl session.client_upload_uuid, (==_iff session.user_id session.user_id).1 refl)
            refl

  -- If completeFinalize has completed an upload with a video that is in the tables, then every later
  -- finalization of that upload by its owner, whatever the time, the disk's errors and the worker,
  -- answers with that video and changes nothing.
  pub complete_finalize-again :
      (tools : Tools) (stuck' : String → Bool) (create : CreateFile) (commits : Bool) (now' : ℕ)
      (allow_resume : Bool)
      → finalize_context tools stuck' create commits now' allow_resume session.tus_id
          session.user_id
          (complete_finalize stuck now session link store)
        ≡ (complete_finalize stuck now session link store, accept link)
  unfolding finalize_context
  complete_finalize-again tools stuck' create commits now' allow_resume =
      let done = complete_finalize stuck now session link store in
      let owner : ((finish now link session).user_id == session.user_id) ≡ true =
        unfold finish in (==_iff session.user_id session.user_id).1 refl in
      let whole' : is_partial_kind (finish now link session).kind ≡ false =
        unfold finish in whole in
      let linked : ltb 0 (finish now link session).link_id ≡ true =
        unfold finish in ground (arith, known) in
      let there : first (λ (l : Link). l.id == (finish now link session).link_id && not l.deleted)
            done.links
          ≡ some link =
        unfold finish complete_finalize in stored in
      rw (finalize_context, finished, owner, whole', linked, there) refl
