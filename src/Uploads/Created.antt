-- ===== src/Uploads/Created.antt =====
-- What a successful preUploadCreate has checked, and what it adds to the tables.
use videocms.Base.{
  ℤ, pos, negsuc, ℕ, ◌-◌, ◌≤◌, ◌<◌, ◌≡◌, refl, sym, ap, subst, ◌∙◌, ◌⊎◌, inl, inr, true, false, not,
  ◌&&◌, ◌||◌, select, Option, none, some, String, List, [], ◌∷◌, ◌++◌, arith, ◌==◌, ltb,
  if◌then◌else◌, Bool-cases,
}
use videocms.Media.{UploadStatus}
use videocms.Media.{
  UploadSession, UploadKind, UploadPart, FolderShare, Store, Reply, accept, refuse, ◌>>◌, unless,
  accept_if, accept->>=,
}
use videocms.Uploads.Tools.{Settings, Tools, Context, FileInfo}
use videocms.Sharing.Capacity.{is_active, in_group}
use videocms.Sharing.{validate_folder_destination}
use videocms.Uploads.Limits.{
  is_active_of, is_partial_kind, check_storage_quota, enforce_max_upload_file_size,
  enforce_active_session_limit,
}
use videocms.Uploads.Guests.{
  validate_shared_create, validate_upload_group, validate_shared_capacity, declared_size,
  partial_bytes, is_final_kind,
}
use videocms.Uploads.Create.{
  is_enabled, checked_size, checked_name, parse_optional_uint, check_guest, upload_group, kind_of,
  pre_upload_create, create_session, new_session, reserve, join_partials, quota_of, no_parts,
}

-- A check whose success is all that it gives.
pub then-accept {κ} :
    {W : Type κ} (check : Reply (Unit {0})) (next : Reply W) {w : W}
    → (check >> next) ≡ accept w
    → (check ≡ accept tt) × (next ≡ accept w)
then-accept (accept _) next h = (refl, h)
then-accept (refuse status) next h = cc

-- The session that the hook makes, before a guest's reserves its declared size.
pub record Checked (settings : Settings) (context : Context) (store : Store)
    (session : UploadSession) : Type 0 where
  pub user : context.user_id ≡ some session.user_id
  pub live : session.deleted ≡ false
  pub quota :
      (session.quota_bytes ≡ 0)
      ⊎ (check_storage_quota session.user_id session.quota_bytes store ≡ accept tt)
  pub bounded :
      0 < settings.max_upload_filesize → session.quota_bytes ≤ settings.max_upload_filesize
  pub active : is_active session.status ≡ true
  pub fresh : session.status ≡ UploadStatus.created
  pub fits : 0 < settings.max_upload_filesize → session.size ≤ settings.max_upload_filesize

quota_le : (size : ℕ) (kind : UploadKind) {limit : ℕ} → size ≤ limit → quota_of kind size ≤ limit
quota_le size kind h = ground (arith, h)

checked_size_le :
    (settings : Settings) (value : ℤ) {size : ℕ}
    → checked_size settings value ≡ accept size
    → 0 < settings.max_upload_filesize
    → size ≤ settings.max_upload_filesize
unfolding checked_size
checked_size_le settings (pos n) h limited = ground arith
checked_size_le settings (negsuc n) h limited = cc

module _ (tools : Tools) (settings : Settings) (now id tus_id : ℕ) (fresh : String)
    (context : Context) (info : FileInfo) (store : Store) where
  pub pre_upload_create-Checked :
      {s : UploadSession} {store' : Store}
      → pre_upload_create tools settings now id tus_id fresh context info store ≡ accept (s, store')
      → (session : UploadSession) × Checked settings context store session
        × (create_session tools settings now context.share info session store ≡ accept (s, store'))
  unfolding pre_upload_create
  pre_upload_create-Checked e =
      let (user_id, known, e₁) = accept->>= (accept_if context.user_id 403) (λ _. _) e in
      let (_, e₂) = then-accept (unless (is_enabled settings.upload_enabled) 403) _ e₁ in
      let (size, sized, e₃) = accept->>= (checked_size settings info.size) (λ _. _) e₂ in
      let (name, _, e₄) = accept->>= (checked_name tools info) (λ _. _) e₃ in
      let (folder_id, _, e₅) =
        accept->>= (parse_optional_uint tools (info.metadata "parent_folder_id")) (λ _. _) e₄ in
      let (_, e₆) = then-accept (validate_folder_destination store folder_id user_id) _ e₅ in
      let (_, e₇) = then-accept (check_guest tools context.share folder_id name store) _ e₆ in
      let (group, _, e₈) =
        accept->>= (upload_group tools fresh (info.metadata "client_upload_uuid")) (λ _. _) e₇ in
      let (_, e₉) =
        then-accept (validate_upload_group context user_id group folder_id name store) _ e₈ in
      let kind = kind_of info in
      let (_, e₁₀) =
        then-accept (enforce_max_upload_file_size settings user_id group kind size store) _ e₉ in
      let (quota, e₁₁) =
        then-accept
          (if ltb 0 (quota_of kind size)
            then check_storage_quota user_id (quota_of kind size) store
            else accept tt)
          _ e₁₀ in
      let (_, e₁₂) =
        then-accept (enforce_active_session_limit settings user_id group store) _ e₁₁ in
      (
        new_session now id tus_id context group kind name size folder_id user_id info,
        record {
          user = known_user known;
          live = refl;
          quota = checked user_id kind size quota;
          bounded = within kind sized;
          active = unfold is_active in refl;
          fresh = refl;
          fits = checked_size_le settings info.size sized;
        },
        e₁₂,
      )
    where
      known_user :
          {user_id : ℕ}
          → accept_if context.user_id 403 ≡ accept user_id
          → context.user_id ≡ some user_id
      known_user h = ground (arith, h)

      within :
          {size : ℕ} (kind : UploadKind)
          → checked_size settings info.size ≡ accept size
          → 0 < settings.max_upload_filesize
          → quota_of kind size ≤ settings.max_upload_filesize
      within {size} kind h limited =
          quota_le size kind (checked_size_le settings info.size h limited)

      checked :
          (user_id : ℕ) (kind : UploadKind) (size : ℕ)
          → (if ltb 0 (quota_of kind size)
              then check_storage_quota user_id (quota_of kind size) store
              else accept tt)
            ≡ accept tt
          → (quota_of kind size ≡ 0)
            ⊎ (check_storage_quota user_id (quota_of kind size) store ≡ accept tt)
      checked user_id kind size h = elim (Bool-cases (ltb 0 (quota_of kind size))) [
        | inl some_bytes ↦ inr (rw some_bytes at h)
        | inr none_left ↦ inl (ground (arith, none_left))
      ]

-- What validateSharedCreate has checked, when it succeeds.
pub record Reserved (session : UploadSession) (store : Store) (created : UploadSession)
    : Type 0 where
  pub expected : ℕ
  pub bytes : ℕ
  pub created_eq : created ≡ record session { expected_size = expected }
  pub counted :
      partial_bytes session.kind expected 0 (
        select
          (λ s. is_active_of session.user_id s && in_group session.client_upload_uuid s)
          store.sessions)
      ≡ accept bytes
  pub partial_fits : is_partial_kind session.kind ≡ true → session.size ≤ expected - bytes
  pub final_fits : is_final_kind session.kind ≡ true → bytes ≡ expected

module _ (tools : Tools) (settings : Settings) (now : ℕ) where
  pub validate_shared_create-Reserved :
      (share : FolderShare) (file_size : String) (session : UploadSession) (store : Store)
      {created : UploadSession}
      → validate_shared_create tools settings now share file_size session store ≡ accept created
      → Reserved session store created
  unfolding validate_shared_create
  validate_shared_create-Reserved share file_size session store e =
      let (expected, _, e₁) =
        accept->>= (declared_size tools session.kind session.size file_size) (λ _. _) e in
      let (_, e₂) =
        then-accept
          (unless
            (not (
              (not (is_partial_kind session.kind) && not (expected == session.size))
              || ltb expected session.size))
            400)
          _ e₁ in
      let (bytes, counted, e₃) =
        accept->>=
          (partial_bytes session.kind expected 0 (
            select (λ s. is_active_of session.user_id s && in_group session.client_upload_uuid s)
              store.sessions))
          (λ _. _) e₂ in
      let (partial_ok, e₄) =
        then-accept
          (unless (not (is_partial_kind session.kind && ltb (expected - bytes) session.size)) 400) _
          e₃ in
      let (final_ok, e₅) =
        then-accept (unless (not (is_final_kind session.kind && not (bytes == expected))) 400) _
          e₄ in
      let (_, e₆) =
        then-accept
          (validate_shared_capacity tools settings now store share expected
            session.client_upload_uuid)
          _ e₅ in
      record {
        expected = expected;
        bytes = bytes;
        created_eq = cc;
        counted = counted;
        partial_fits = λ k. ground (arith, k, partial_ok);
        final_fits = λ k. ground (arith, k, final_ok);
      }

  -- A reservation changes the declared size, and nothing else.
  pub reserve_lem :
      (share : Option FolderShare) (file_size : String) (session : UploadSession) (store : Store)
      {created : UploadSession}
      → reserve tools settings now share file_size session store ≡ accept created
      → created ≡ record session { expected_size = created.expected_size }
  unfolding reserve
  reserve_lem none file_size session store {created} e =
      let same : session ≡ created = cc in rw (← same) refl
  reserve_lem (some share) file_size session store e =
      let r = validate_shared_create-Reserved share file_size session store e in
      r.created_eq
      ∙ ap (λ (n : ℕ). record session { expected_size = n })
          (sym (ap (λ (s : UploadSession). s.expected_size) r.created_eq))

-- What the transaction adds to the tables.
pub record Gains (share : Option FolderShare) (info : FileInfo) (created : UploadSession)
    (store store' : Store) : Type 0 where
  pub sessions : store'.sessions ≡ store.sessions ++ created ∷ []
  pub users : store'.users ≡ store.users
  pub links : store'.links ≡ store.links
  pub files : store'.files ≡ store.files
  pub parts :
      is_final_kind created.kind ≡ true
      → (parts : List UploadPart) × (store'.parts ≡ store.parts ++ parts)
        × (join_partials share info.partial_uploads created
              (record store { sessions = store.sessions ++ created ∷ [] })
            ≡ accept parts)

module _ (tools : Tools) (settings : Settings) (now : ℕ) (share : Option FolderShare)
    (info : FileInfo) (session : UploadSession) (store : Store) where
  pub create_session-Gains :
      {created : UploadSession} {store' : Store}
      → create_session tools settings now share info session store ≡ accept (created, store')
      → (reserve tools settings now share (info.metadata "file_size") session store
          ≡ accept created)
        × Gains share info created store store'
  unfolding create_session
  create_session-Gains e =
      let (_, e₁) =
        then-accept (validate_folder_destination store session.parent_folder_id session.user_id) _
          e in
      let (created, reserved, e₂) =
        accept->>= (reserve tools settings now share (info.metadata "file_size") session store)
          (λ _. _) e₁ in
      let store' : Store = record store { sessions = store.sessions ++ created ∷ [] } in
      let (parts, joined, e₃) =
        accept->>=
          (if is_final_kind session.kind
            then join_partials share info.partial_uploads created store'
            else accept no_parts)
          (λ _. _) e₂ in
      subst
        (λ (made : UploadSession × Store).
          (reserve tools settings now share (info.metadata "file_size") session store
            ≡ accept made.0)
          × Gains share info made.0 store made.1)
        (pair e₃) (reserved, gains created parts (kind_kept reserved) joined)
    where
      pair :
          {a b : UploadSession × Store}
          → ◌≡◌ {A = Reply (UploadSession × Store)} (accept a) (accept b)
          → a ≡ b
      pair h = cc

      kind_kept :
          {created : UploadSession}
          → reserve tools settings now share (info.metadata "file_size") session store
            ≡ accept created
          → created.kind ≡ session.kind
      kind_kept h =
          ap (λ (s : UploadSession). s.kind)
            (reserve_lem tools settings now share (info.metadata "file_size") session store h)

      gains :
          (created : UploadSession) (parts : List UploadPart)
          → created.kind ≡ session.kind
          → let store' : Store = record store { sessions = store.sessions ++ created ∷ [] } in
            (if is_final_kind session.kind
                then join_partials share info.partial_uploads created store'
                else accept no_parts)
              ≡ accept parts
            → Gains share info created store (record store' { parts = store.parts ++ parts })
      gains created parts same joined = record {
        sessions = refl;
        users = refl;
        links = refl;
        files = refl;
        parts = λ final. (parts, refl, rw (← same, final) at joined);
      }
