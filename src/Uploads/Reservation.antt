-- ===== src/Uploads/Reservation.antt =====
-- What validateSharedCreate of services/tusupload/shared.go keeps of a guest's upload group: the parts
-- of a video declare one size, and together they do not pass it.
use text.Mathlib.TextPositions.{eq_refl}
use videocms.Base.{
  ℕ, ◌+◌, ◌-◌, ◌≤◌, ◌≡◌, refl, sym, ap, subst, ◌∙◌, ◌⊎◌, inl, inr, Bool, true, false, not, ◌&&◌,
  ◌||◌, Option, some, String, List, [], ◌∷◌, ◌++◌, arith, ◌==◌, ==_iff, ltb, if◌then◌else◌, select,
  select-append, sum_of, sum_of-append, All, All-append, Bool-cases,
}
use videocms.Media.{UploadSession, UploadKind, FolderShare, Store, accept, unless, ◌>>◌}
use videocms.Sharing.Capacity.{is_active, in_group}
use videocms.Uploads.Tools.{Settings, Tools, Context, FileInfo}
use videocms.Uploads.Limits.{is_active_of, is_partial_kind}
use videocms.Uploads.Guests.{partial_bytes, validate_shared_create, is_final_kind, is_single}
use videocms.Uploads.Create.{pre_upload_create, reserve}
use videocms.Uploads.Created.{
  then-accept, pre_upload_create-Checked, create_session-Gains, validate_shared_create-Reserved,
}

-- The bytes of a row that is a part.
abbrev pub part_size : UploadSession → ℕ
part_size s = if is_partial_kind s.kind then s.size else 0

three :
    (a b c : Bool) (x y z : ℕ)
    → (unless a x >> unless b y >> unless c z) ≡ accept tt
    → (a ≡ true) × (b ≡ true) × (c ≡ true)
three a b c x y z h = (ground (arith, h), ground (arith, h), ground (arith, h))

-- What the loop has seen, when it ends.
partial_bytes-sum :
    (kind : UploadKind) (expected bytes : ℕ) (group : List UploadSession) {total : ℕ}
    → bytes ≤ expected
    → partial_bytes kind expected bytes group ≡ accept total
    → (total ≡ bytes + sum_of part_size group)
      × (total ≤ expected)
      × All (λ s. s.expected_size ≡ expected) group
unfolding partial_bytes sum_of
partial_bytes-sum kind expected bytes [] le e = (ground (arith, e), ground (arith, e), tt)
partial_bytes-sum kind expected bytes (part ∷ rest) {total} le e =
    let next = if is_partial_kind part.kind then bytes + part.size else bytes in
    let (checks, more) =
      then-accept
        (unless (not (is_single kind || (is_partial_kind kind && not (is_partial_kind part.kind))))
            409
          >> unless (part.expected_size == expected) 400
          >> unless (not (is_partial_kind part.kind && ltb (expected - bytes) part.size)) 400)
        (partial_bytes kind expected next rest) e in
    let (_, sized, fits) = three _ _ _ 409 400 400 checks in
    let (sum, within, same) =
      partial_bytes-sum kind expected next rest (ground (arith, le, fits)) more in
    (ground (arith, sum), within, ((==_iff part.expected_size expected).0 sized, same))

-- The live rows of the upload group, in an active status.
abbrev pub group_of : UploadSession → List UploadSession → List UploadSession
group_of s =
    select (λ (r : UploadSession). is_active_of s.user_id r && in_group s.client_upload_uuid r)

abbrev IsReserved : UploadSession → List UploadSession → Type 0
IsReserved s sessions =
    All (λ (r : UploadSession). r.expected_size ≡ s.expected_size) (group_of s sessions)
    × (sum_of part_size (group_of s sessions) ≤ s.expected_size)
    × ((is_final_kind s.kind ≡ false) ⊎ (sum_of part_size (group_of s sessions) ≡ s.expected_size))

-- The row itself is one of its group.
group_of_self :
    (s : UploadSession)
    → s.deleted ≡ false
    → is_active s.status ≡ true
    → group_of s (s ∷ []) ≡ s ∷ []
unfolding select is_active_of
group_of_self s live active =
    rw (live, active, (==_iff s.user_id s.user_id).1 refl, eq_refl s.client_upload_uuid) refl

IsReserved-append :
    (session : UploadSession) (sessions : List UploadSession) (expected bytes : ℕ)
    → session.deleted ≡ false
    → is_active session.status ≡ true
    → partial_bytes session.kind expected 0 (group_of session sessions) ≡ accept bytes
    → (is_partial_kind session.kind ≡ true → session.size ≤ expected - bytes)
    → (is_final_kind session.kind ≡ true → bytes ≡ expected)
    → let s : UploadSession = record session { expected_size = expected } in
      IsReserved s (sessions ++ s ∷ [])
IsReserved-append session sessions expected bytes live active counted partial_ok final_ok =
    let s : UploadSession = record session { expected_size = expected } in
    let before = group_of session sessions in
    let (sum, within, same) =
      partial_bytes-sum session.kind expected 0 before (omega arith) counted in
    let whole : group_of s (sessions ++ s ∷ []) ≡ before ++ s ∷ [] =
      select-append _ sessions (s ∷ [])
      ∙ ap (λ (g : List UploadSession). before ++ g) (group_of_self s live active) in
    let parts : sum_of part_size (before ++ s ∷ []) ≡ bytes + part_size s =
      sum_of-append part_size before (s ∷ []) ∙ one s bytes (sum_of part_size before) sum in
    rw whole (
      All-append (λ (r : UploadSession). r.expected_size ≡ expected) before (s ∷ []) same
          (refl, tt),
      ground (arith, parts, within, partial_ok),
      elim (Bool-cases (is_final_kind session.kind)) [
        | inl final ↦ inr (omega (arith, parts, final_ok final, whole_size final))
        | inr open_ended ↦ inl open_ended
      ],
    )
  where
    whole_size : is_final_kind session.kind ≡ true → part_size session ≡ 0
    whole_size final = ground (arith, final)

    one :
        (s : UploadSession) (bytes total : ℕ)
        → bytes ≡ 0 + total
        → total + sum_of part_size (s ∷ []) ≡ bytes + part_size s
    one s bytes total e = unfold sum_of in omega (arith, e)

-- If a guest's upload is accepted, then the live rows of its group, with it, all declare its size, and
-- the parts among them do not pass that size, and make it up if the upload joins them.
pub guest_create-reserves :
    (tools : Tools) (settings : Settings) (now id tus_id : ℕ) (fresh : String) (context : Context)
    (info : FileInfo) (store : Store) {share : FolderShare} {s : UploadSession} {store' : Store}
    → context.share ≡ some share
    → pre_upload_create tools settings now id tus_id fresh context info store ≡ accept (s, store')
    → let group = group_of s store'.sessions in
      All (λ (r : UploadSession). r.expected_size ≡ s.expected_size) group
      × (sum_of part_size group ≤ s.expected_size)
      × ((is_final_kind s.kind ≡ false) ⊎ (sum_of part_size group ≡ s.expected_size))
guest_create-reserves tools settings now id tus_id fresh context info store {share} {s} {store'}
      guest e =
    let (session, checked, made) =
      pre_upload_create-Checked tools settings now id tus_id fresh context info store e in
    let (reserved, gains) =
      create_session-Gains tools settings now context.share info session store made in
    let r =
      validate_shared_create-Reserved tools settings now share (info.metadata "file_size") session
        store {created = s} (as_guest session context.share guest reserved) in
    let row : UploadSession = record session { expected_size = r.expected } in
    rw gains.sessions (
      subst (λ (x : UploadSession). IsReserved x (store.sessions ++ x ∷ [])) (sym r.created_eq)
        (IsReserved-append session store.sessions r.expected r.bytes checked.live checked.active
          r.counted r.partial_fits r.final_fits))
  where
    as_guest :
        (session : UploadSession) (share' : Option FolderShare)
        → share' ≡ some share
        → reserve tools settings now share' (info.metadata "file_size") session store ≡ accept s
        → validate_shared_create tools settings now share (info.metadata "file_size") session store
          ≡ accept s
    as_guest session share' g h =
        unfold reserve in
        subst
          (λ sh. reserve tools settings now sh (info.metadata "file_size") session store ≡ accept s)
          g h
