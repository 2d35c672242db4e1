-- ===== src/Uploads/Stored.antt =====
-- The two ways in which an import makes a video, over the storage quota: a new file, or a link to a
-- file that is there.
use videocms.Base.{
  ℕ, ◌+◌, ◌≤◌, ◌<◌, ◌≡◌, refl, sym, ap, subst, ◌∙◌, ◌≢◌, Bool, false, some, String, [], ◌∷◌, ◌++◌,
  arith, ◌==◌, first, select, select_none, sum_of, All, All-map, All-intro, All-first,
  if◌then◌else◌, int64_limit,
}
use videocms.Media.{UploadSession, User, File, Link, Store, Reply, accept, ◌>>◌}
use videocms.Sharing.{validate_folder_destination}
use videocms.Uploads.Tools.{Tools}
use videocms.Uploads.Limits.{used_storage, linked_bytes}
use videocms.Uploads.Created.{then-accept}
use videocms.Uploads.Finalize.{complete_finalize}
use videocms.Uploads.Videos.{check_quota_outside, video_link, create_video, clone_video}
use videocms.Uploads.Within.{IsWithin}
use videocms.Uploads.Imports.{used_storage-append, linked_bytes-append, of_user, imported-IsWithin}

-- No file has the identifier, and no link leads to it.
abbrev pub IsNew : ℕ → Store → Type 0
IsNew id store =
    All (λ (f : File). (f.id == id) ≡ false) store.files
    × All (λ (l : Link). (id == l.file_id) ≡ false) store.links

made :
    {a b : Link} {s t : Store}
    → ◌≡◌ {A = Reply (Link × Store)} (accept (a, s)) (accept (b, t))
    → ◌≡◌ {A = Link × Store} (a, s) (b, t)
made h = cc

module _ {limit : ℕ} {user : User} (stored : user.storage ≢ 0)
    (small : user.storage + limit < int64_limit) (tools : Tools) (stuck : String → Bool)
    (now tus_id link_id : ℕ) (link_uuid : String) (session : UploadSession) (store : Store)
    (found : first (λ (s : UploadSession). s.tus_id == tus_id) store.sessions ≡ some session)
    (h : IsWithin limit user store) where
  bounded : session.size ≤ limit
  bounded =
      All-first (λ (s : UploadSession). s.size ≤ limit) (λ (s : UploadSession). s.tus_id == tus_id)
        store.sessions h.sized found

  pub create_video-IsWithin :
      (file_id file_uuid : ℕ) {link : Link} {mid : Store}
      → IsNew file_id store
      → create_video tools link_id link_uuid file_id file_uuid session store ≡ accept (link, mid)
      → IsWithin limit user (complete_finalize stuck now session link mid)
  unfolding create_video video_link
  create_video-IsWithin file_id file_uuid {link} {mid} new e =
      let row = video_link tools link_id link_uuid file_id session in
      let file : File = record {
        id = file_id;
        deleted = false;
        uuid = file_uuid;
        size = session.size;
      } in
      let next : Store = record store {
        files = store.files ++ file ∷ [];
        links = store.links ++ row ∷ [];
      } in
      let check =
        check_quota_outside session.user_id session.size session.client_upload_uuid store in
      let valid = validate_folder_destination store session.parent_folder_id session.user_id in
      let (checks, e₂) = then-accept (valid >> check >> valid) _ e in
      let (before, _) = then-accept (valid >> check) valid checks in
      let (_, passed) = then-accept valid check before in
      let none_yet : linked_bytes store.files file_id ≡ 0 =
        unfold linked_bytes sum_of in
        rw (select_none (λ (f : File). f.id == file_id) store.files new.0) refl in
      let own : linked_bytes next.files file_id ≡ session.size =
        linked_bytes-append store.files file file_id ∙ ground (arith, none_yet) in
      let same =
        All-map {P = λ (l : Link). (file_id == l.file_id) ≡ false}
          {Q = λ (l : Link). linked_bytes next.files l.file_id ≡ linked_bytes store.files l.file_id}
          (λ l apart. linked_bytes-append store.files file l.file_id ∙ ground (arith, apart))
          store.links new.1 in
      let uses =
        used_storage-append user.id store next row refl same
        ∙ ap (λ (n : ℕ). used_storage user.id store + (if of_user user.id row then n else 0)) own in
      subst
        (λ (r : Link × Store). IsWithin limit user (complete_finalize stuck now session r.0 r.1))
        (made e₂)
        (imported-IsWithin stuck now session row session.size store next stored small bounded refl
          refl refl refl uses passed h)

  pub clone_video-IsWithin :
      (file : File) {link : Link} {mid : Store}
      → select (λ (f : File). f.id == file.id) store.files ≡ file ∷ []
      → file.size ≡ session.size
      → clone_video tools link_id link_uuid file session store ≡ accept (link, mid)
      → IsWithin limit user (complete_finalize stuck now session link mid)
  unfolding clone_video video_link
  clone_video-IsWithin file {link} {mid} row_of size e =
      let row = video_link tools link_id link_uuid file.id session in
      let next : Store = record store { links = store.links ++ row ∷ [] } in
      let check = check_quota_outside session.user_id file.size session.client_upload_uuid store in
      let valid = validate_folder_destination store session.parent_folder_id session.user_id in
      let (checks, e₂) = then-accept (valid >> check >> valid) _ e in
      let (before, _) = then-accept (valid >> check) valid checks in
      let (_, passed) = then-accept valid check before in
      let own : linked_bytes next.files file.id ≡ file.size =
        unfold linked_bytes sum_of in rw row_of (omega arith) in
      let uses =
        used_storage-append user.id store next row refl (All-intro (λ l. refl) store.links)
        ∙ ap (λ (n : ℕ). used_storage user.id store + (if of_user user.id row then n else 0)) own in
      subst
        (λ (r : Link × Store). IsWithin limit user (complete_finalize stuck now session r.0 r.1))
        (made e₂)
        (imported-IsWithin stuck now session row file.size store next stored small
          (subst (λ (n : ℕ). n ≤ limit) (sym size) bounded) refl refl refl refl uses passed h)
