-- ===== src/Uploads/Again.antt =====
-- EnqueueFinalize of services/tusupload/service.go called twice for one upload.
use text.Mathlib.TextPositions.{eq_refl}
use videocms.Base.{
  ℕ, ◌≡◌, ◌⊎◌, refl, sym, ap, subst, ◌∙◌, inl, inr, Bool, true, false, not, Option, none, some,
  String, List, [], ◌∷◌, arith, ◌==◌, ==_iff, first, first-update_where, update_where, Bool-cases,
  if◌then◌else◌,
}
use videocms.Media.{
  UploadSession, FolderShare, Store, Reply, accept, refuse, unless, accept_if, accept->>=, ◌>>◌,
}
use videocms.Sharing.{contains_folder}
use videocms.Background.Types.{Job, JobSpec}
use videocms.Background.Text.{Library, is_empty}
use videocms.Background.Database.{Db, Error, Outcome, ok, err}
use videocms.Background.Enqueue.{enqueue, normalize_idempotency_key}
use videocms.Background.NewJobs.{IsFresh}
use videocms.Background.Idempotent.{enqueue-again}
use videocms.Uploads.Tools.{Settings, Tools, Context}
use videocms.Uploads.Limits.{is_partial_kind}
use videocms.Uploads.Guests.{authorize_shared_session, validate_shared_destination}
use videocms.Uploads.Created.{then-accept}
use videocms.Uploads.Expiry.{is_expired}
use videocms.Uploads.Finalize.{of_group}
use videocms.Uploads.Ingest.{
  JobTexts, ingest_spec, finalizable, is_complete, check_room, set_job, enqueue_finalize,
}

-- An update that is made twice.
update_where_twice {ℓ} :
    {A : Type ℓ} (p : A → Bool) (f : A → A) (xs : List A)
    → ((x : A) → p (f x) ≡ p x)
    → ((x : A) → f (f x) ≡ f x)
    → update_where p f (update_where p f xs) ≡ update_where p f xs
unfolding update_where
update_where_twice p f [] keep twice = refl
update_where_twice p f (x ∷ xs) keep twice =
    let ih = update_where_twice p f xs keep twice in
    elim (Bool-cases (p x)) [
      | inl hit ↦ rw (hit, keep x, hit, twice x, ih) refl
      | inr miss ↦ rw (miss, miss, ih) refl
    ]

Reply-cases {ℓ} :
    {V : Type ℓ} (reply : Reply V)
    → ((v : V) × (reply ≡ accept v)) ⊎ ((status : ℕ) × (reply ≡ refuse status))
Reply-cases (accept v) = inl (v, refl)
Reply-cases (refuse status) = inr (status, refl)

Outcome-cases {ℓ} :
    {V : Type ℓ} (outcome : Outcome V)
    → ((v : V) × (outcome ≡ ok v)) ⊎ ((error : Error) × (outcome ≡ err error))
Outcome-cases (ok v) = inl (v, refl)
Outcome-cases (err error) = inr (error, refl)

module _ (lib : Library) (texts : JobTexts) (tools : Tools) (settings : Settings)
    (stuck : String → Bool) (context : Context) (tus_id user_id : ℕ) where
  -- What a call that queues the import has found.
  record Queued (now id : ℕ) (uuid : ℕ → ℕ) (store store' : Store) (db db' : Db) (job : Job)
      (reused : Bool) : Type 0 where
    session : UploadSession
    found : first (λ (s : UploadSession). s.tus_id == tus_id) store.sessions ≡ some session
    owner : (session.user_id == user_id) ≡ true
    authorized : authorize_shared_session context session store ≡ accept tt
    whole : is_partial_kind session.kind ≡ false
    complete : is_complete session.status ≡ true
    queued : enqueue lib now id uuid (ingest_spec texts user_id session) db ≡ ok (job, reused, db')
    stored : store' ≡ record store {
      sessions = update_where (of_group session) (set_job job.id) store.sessions;
    }

  finalizable_lem :
      (store : Store) {session : UploadSession}
      → finalizable context tus_id user_id store ≡ accept session
      → (first (λ (s : UploadSession). s.tus_id == tus_id) store.sessions ≡ some session)
        × ((session.user_id == user_id) ≡ true)
        × (authorize_shared_session context session store ≡ accept tt)
        × (is_partial_kind session.kind ≡ false)
  unfolding finalizable
  finalizable_lem store {session} e =
      let rows = first (λ (s : UploadSession). s.tus_id == tus_id) store.sessions in
      let (row, there, e₁) = accept->>= (accept_if rows 404) (λ _. _) e in
      let (owner, e₂) = then-accept (unless (row.user_id == user_id) 403) _ e₁ in
      let (allowed, e₃) = then-accept (authorize_shared_session context row store) _ e₂ in
      let (whole, last) = then-accept (unless (not (is_partial_kind row.kind)) 400) _ e₃ in
      let same : row ≡ session = accepted last in
      subst
        (λ (s : UploadSession).
          (rows ≡ some s)
          × ((s.user_id == user_id) ≡ true)
          × (authorize_shared_session context s store ≡ accept tt)
          × (is_partial_kind s.kind ≡ false))
        same (found_row rows there, ground (arith, owner), allowed, ground (arith, whole))
    where
      accepted : {a b : UploadSession} → ◌≡◌ {A = Reply UploadSession} (accept a) (accept b) → a ≡ b
      accepted h = cc

      found_row :
          (rows : Option UploadSession) {row : UploadSession}
          → accept_if rows 404 ≡ accept row
          → rows ≡ some row
      found_row none h = cc
      found_row (some r) h = cc

  parts :
      {s s' : Store} {d d' : Db} {j j' : Job} {r r' : Bool}
      → ◌≡◌ {A = Store × Db × Reply (Job × Bool)} (s, d, accept (j, r)) (s', d', accept (j', r'))
      → (s ≡ s') × (j ≡ j') × (◌≡◌ {A = Job × Bool × Db} (j, r, d) (j', r', d'))
  parts h = (cc, cc, cc)

  enqueue_finalize-Queued :
      (now id : ℕ) (uuid : ℕ → ℕ) (store : Store) (db : Db) {store' : Store} {db' : Db} {job : Job}
      {reused : Bool}
      → enqueue_finalize lib texts tools settings stuck now id uuid context tus_id user_id store db
        ≡ (store', db', accept (job, reused))
      → Queued now id uuid store store' db db' job reused
  unfolding enqueue_finalize
  enqueue_finalize-Queued now id uuid store db {store'} {db'} {job} {reused} e =
      elim (Reply-cases (finalizable context tus_id user_id store)) [
        | inr (status, denied) ↦ absurd (ground (arith, e, denied))
        | inl (session, held) ↦ elim (Bool-cases (is_expired now session)) [
          | inl late ↦ absurd (ground (arith, e, held, late))
          | inr timely ↦
              let checks =
                unless (is_complete session.status) 409
                >> check_room tools settings now context.share session store in
              elim (Reply-cases checks) [
                | inr (status, denied) ↦ absurd (ground (arith, e, held, timely, denied))
                | inl (_, passed) ↦
                    elim (Outcome-cases
                      (enqueue lib now id uuid (ingest_spec texts user_id session) db)) [
                        | inr (error, denied) ↦
                            absurd (ground (arith, e, held, timely, passed, denied))
                        | inl ((j, r, d), made) ↦
                            let after : Store = record store {
                              sessions =
                                  update_where (of_group session) (set_job j.id) store.sessions;
                            } in
                            let ends : (after, d, accept (j, r))
                                ≡ (store', db', accept (job, reused)) =
                              rw (enqueue_finalize, held, timely, passed, made) at e in
                            let (stored, jobs, results) = parts ends in
                            let (found, owner, authorized, whole) = finalizable_lem store held in
                            record {
                              session = session;
                              found = found;
                              owner = owner;
                              authorized = authorized;
                              whole = whole;
                              complete = ground (arith, passed);
                              queued =
                                  subst
                                    (λ (x : Job × Bool × Db).
                                      enqueue lib now id uuid (ingest_spec texts user_id session) db
                                      ≡ ok x)
                                    results made;
                              stored =
                                  subst
                                    (λ (x : Job). store' ≡ record store {
                                      sessions =
                                          update_where (of_group session) (set_job x.id)
                                            store.sessions;
                                    })
                                    jobs (sym stored);
                            }
                      ]
              ]
        ]
      ]

  -- The session as the first call has left it passes the same checks.
  finalizable_again :
      (session : UploadSession) (store : Store) (sessions : List UploadSession) (job_id : ℕ)
      → first (λ (s : UploadSession). s.tus_id == tus_id) sessions ≡ some (set_job job_id session)
      → (session.user_id == user_id) ≡ true
      → authorize_shared_session context session store ≡ accept tt
      → is_partial_kind session.kind ≡ false
      → finalizable context tus_id user_id (record store { sessions = sessions })
        ≡ accept (set_job job_id session)
  unfolding finalizable set_job authorize_shared_session validate_shared_destination contains_folder
  finalizable_again session store sessions job_id found owner authorized whole =
      rw (found, owner, authorized, whole) refl

  check_room_again :
      (now job_id : ℕ) (share : Option FolderShare) (session : UploadSession) (store : Store)
      → check_room tools settings now share (set_job job_id session) store ≡ accept tt
  unfolding check_room set_job
  check_room_again now job_id none session store = refl
  check_room_again now job_id (some share) session store = refl

  -- A row of the group goes on to be one, and a job that is set twice is set once.
  of_group-set_job :
      (session s : UploadSession) (job_id : ℕ)
      → of_group session (set_job job_id s) ≡ of_group session s
  unfolding of_group set_job
  of_group-set_job session s job_id = refl

  of_group-own : (session : UploadSession) → of_group session session ≡ true
  unfolding of_group
  of_group-own session =
      rw (eq_refl session.client_upload_uuid, (==_iff session.user_id session.user_id).1 refl) refl

  -- If EnqueueFinalize queues the import of an upload, under a key that is not empty and with a new
  -- identifier that no job has, then the same call made again before the upload expires answers with
  -- the same job, as one that was there, and changes neither the sessions nor the jobs.
  pub enqueue_finalize-again :
      (now id : ℕ) (uuid : ℕ → ℕ) (store : Store) (db : Db) {session : UploadSession}
      {store' : Store} {db' : Db} {job : Job} {reused : Bool}
      → IsFresh id db
      → first (λ (s : UploadSession). s.tus_id == tus_id) store.sessions ≡ some session
      → is_empty
          (normalize_idempotency_key lib (texts.idempotency_key user_id session.client_upload_uuid))
        ≡ false
      → enqueue_finalize lib texts tools settings stuck now id uuid context tus_id user_id store db
        ≡ (store', db', accept (job, reused))
      → (now' id' : ℕ) (uuid' : ℕ → ℕ) → is_expired now' session ≡ false
      → enqueue_finalize lib texts tools settings stuck now' id' uuid' context tus_id user_id store'
          db'
        ≡ (store', db', accept (job, true))
  unfolding enqueue_finalize
  enqueue_finalize-again now id uuid store db {session} {store'} {db'} {job} {reused} fresh row
        named e now' id' uuid' timely =
      let q = enqueue_finalize-Queued now id uuid store db e in
      let same : q.session ≡ session = ground (arith, q.found, row) in
      let rows = update_where (of_group q.session) (set_job job.id) store.sessions in
      let named' : is_empty
            (normalize_idempotency_key lib (ingest_spec texts user_id q.session).idempotency_key)
          ≡ false =
        unfold ingest_spec in rw same named in
      let again =
        enqueue-again lib now id uuid (ingest_spec texts user_id q.session) db fresh named'
          (unfold ingest_spec in (refl, tt)) q.queued now' id' uuid' in
      let set = set_job job.id q.session in
      let after : Store = record store { sessions = rows } in
      let again_row : first (λ (s : UploadSession). s.tus_id == tus_id) rows ≡ some set =
        first-update_where (λ (s : UploadSession). s.tus_id == tus_id) (of_group q.session)
          (set_job job.id) (λ s. unfold set_job in refl) store.sessions q.found
        ∙ ap (λ (b : Bool). some (if b then set_job job.id q.session else q.session))
            (of_group-own q.session) in
      let held : finalizable context tus_id user_id after ≡ accept set =
        finalizable_again q.session store rows job.id again_row q.owner q.authorized q.whole in
      let timely' : is_expired now' set ≡ false = unfold is_expired set_job in rw same timely in
      let complete' : is_complete set.status ≡ true = unfold set_job in q.complete in
      let room = check_room_again now' job.id context.share q.session after in
      let spec : ingest_spec texts user_id set ≡ ingest_spec texts user_id q.session =
        unfold ingest_spec set_job in refl in
      let again' : enqueue lib now' id' uuid' (ingest_spec texts user_id set) db'
          ≡ ok (job, true, db') =
        subst (λ (x : JobSpec). enqueue lib now' id' uuid' x db' ≡ ok (job, true, db')) (sym spec)
          again in
      let rows' : update_where (of_group set) (set_job job.id) rows ≡ rows =
        unfold of_group set_job in
        update_where_twice (of_group q.session) (set_job job.id) store.sessions (λ s. refl)
          (λ s. refl) in
      subst
        (λ (t : Store).
          enqueue_finalize lib texts tools settings stuck now' id' uuid' context tus_id user_id t
            db'
          ≡ (t, db', accept (job, true)))
        (sym q.stored) (rw (enqueue_finalize, held, timely', complete', room, again', rows') refl)
