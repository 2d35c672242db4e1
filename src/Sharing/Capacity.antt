-- ===== src/Sharing/Capacity.antt =====
-- UploadCapacity of sharing/capacity.go. SQL's sums are taken to stay below 2 ^ 63.
use text.Mathlib.Text.{◌==◌ as str_eq}
use videocms.Base.{
  ℕ, ◌+◌, ◌-◌, Bool, true, false, not, ◌&&◌, Option, none, some, String, List, [], ◌∷◌, ◌==◌, ltb,
  if◌then◌else◌, count_where, select, sum_of,
}
use videocms.Media.{UploadSession, UploadStatus, File, Link, FolderShare, Store}
use videocms.Sharing.{is_member, subtree}

pub record Capacity : Type 0 where
  pub used : ℕ
  pub reserved : ℕ
  pub remaining : ℕ

-- The statuses of activeStatuses.
unfoldable pub is_active : UploadStatus → Bool
is_active UploadStatus.created = true
is_active UploadStatus.uploading = true
is_active UploadStatus.uploaded = true
is_active UploadStatus.importing = true
is_active UploadStatus.failed = true
is_active _ = false

abbrev pub expires_after : ℕ → Option ℕ → Bool
expires_after now none = true
expires_after now (some at) = ltb now at

-- A link of the group, by the key that its creation has left.
unfoldable pub is_imported : (ℕ → String → String) → List Link → ℕ → String → Bool
is_imported creation_key links user_id group = ltb 0 (
    count_where
      (λ (l : Link).
        l.user_id == user_id
        && (not l.deleted && str_eq l.creation_key (creation_key user_id group)))
      links)

unfoldable pub is_pending :
    (ℕ → String → String) → ℕ → FolderShare → String → Store → UploadSession → Bool
unfolding is_active is_imported subtree
is_pending creation_key now share exclude_group store u =
    u.user_id == share.user_id
    && (is_member (subtree store.folders share) u.parent_folder_id
        && (not u.deleted
            && (is_active u.status
                && (expires_after now u.expires_at
                    && (not (str_eq u.client_upload_uuid exclude_group)
                        && not (
                            is_imported creation_key store.links u.user_id
                              u.client_upload_uuid))))))

abbrev max_of : ℕ → ℕ → ℕ
max_of a b = if ltb a b then b else a

unfoldable pub max_expected : List UploadSession → ℕ
max_expected [] = 0
max_expected (u ∷ us) = max_of u.expected_size (max_expected us)

abbrev pub in_group : String → UploadSession → Bool
in_group group u = str_eq u.client_upload_uuid group

-- CASE WHEN expected > reserved THEN expected ELSE reserved END, for the rows of one group.
unfoldable pub group_reservation : List UploadSession → ℕ
unfolding max_expected sum_of
group_reservation us = max_of (sum_of (λ (u : UploadSession). u.quota_bytes) us) (max_expected us)

-- GROUP BY client_upload_uuid, and the sum over the groups: a group counts where its last row stands.
unfoldable pub reservations : List UploadSession → List UploadSession → ℕ
unfolding group_reservation select
reservations pending [] = 0
reservations pending (u ∷ us) =
    let rest = reservations pending us in
    if ltb 0 (count_where (in_group u.client_upload_uuid) us)
    then rest
    else group_reservation (select (in_group u.client_upload_uuid) pending) + rest

unfoldable pub file_size : List File → ℕ → ℕ
unfolding sum_of select
file_size files id =
    sum_of (λ (f : File). f.size) (select (λ (f : File). f.id == id && not f.deleted) files)

unfoldable pub used_bytes : Store → FolderShare → ℕ
unfolding subtree file_size sum_of select
used_bytes store share =
    sum_of (λ (l : Link). file_size store.files l.file_id)
      (select
        (λ (l : Link).
          l.user_id == share.user_id
          && (is_member (subtree store.folders share) l.parent_folder_id && not l.deleted))
        store.links)

unfoldable pub upload_capacity : (ℕ → String → String) → ℕ → Store → FolderShare → String → Capacity
unfolding used_bytes reservations is_pending select
upload_capacity creation_key now store share exclude_group =
    let pending = select (is_pending creation_key now share exclude_group store) store.sessions in
    let used = used_bytes store share in
    let reserved = reservations pending pending in
    record { used = used; reserved = reserved; remaining = share.max_folder_size - used - reserved }
