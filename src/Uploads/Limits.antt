-- ===== src/Uploads/Limits.antt =====
-- The limits of services/tusupload/service.go: the group's size, the storage quota, the sessions.
-- SQLite's SUM fails where it passes the largest int64; Go's own sums wrap around.
use videocms.Base.{
  ℕ, ◌+◌, Bool, true, false, not, ◌&&◌, ◌||◌, String, List, [], ◌∷◌, ◌==◌, ltb, leb, if◌then◌else◌,
  count_where, first, select, sum_of, add64, gt64, int64_limit,
}
use videocms.Media.{
  UploadSession, UploadKind, User, File, Link, Store, Reply, accept, refuse, ◌>>=◌, unless,
  accept_if,
}
use videocms.Sharing.Capacity.{is_active, in_group}
use videocms.Uploads.Tools.{Settings}

-- Scan of a sum: 500 where it does not fit an int64.
abbrev pub sql_sum : ℕ → Reply ℕ
sql_sum total = if ltb total int64_limit then accept total else refuse 500

-- The rows of a user that are live and in one of the active statuses.
unfoldable pub is_active_of : ℕ → UploadSession → Bool
unfolding is_active
is_active_of user_id s = s.user_id == user_id && (not s.deleted && is_active s.status)

abbrev pub is_partial_kind : UploadKind → Bool
is_partial_kind UploadKind.partial = true
is_partial_kind _ = false

unfoldable pub enforce_max_upload_file_size :
    Settings → ℕ → String → UploadKind → ℕ → Store → Reply (Unit {0})
unfolding is_active_of sum_of select add64 gt64
enforce_max_upload_file_size settings user_id group kind size store =
    if settings.max_upload_filesize == 0 || not (is_partial_kind kind) then accept tt else do
      current ← sql_sum (
          sum_of (λ (s : UploadSession). s.size)
            (select (λ s. is_active_of user_id s && (in_group group s && is_partial_kind s.kind))
              store.sessions))
      unless (not (gt64 (add64 current size) settings.max_upload_filesize)) 413

-- COUNT(DISTINCT client_upload_uuid): a group counts where its last row stands.
unfoldable pub count_groups : List UploadSession → ℕ
count_groups [] = 0
count_groups (s ∷ rest) =
    let others = count_groups rest in
    if ltb 0 (count_where (in_group s.client_upload_uuid) rest) then others else 1 + others

unfoldable pub other_groups : ℕ → String → Store → ℕ
unfolding is_active_of count_groups select
other_groups user_id group store =
    count_groups (select (λ s. is_active_of user_id s && not (in_group group s)) store.sessions)

unfoldable pub enforce_active_session_limit : Settings → ℕ → String → Store → Reply (Unit {0})
unfolding other_groups
enforce_active_session_limit settings user_id group store = do
  user ← accept_if (first (λ (u : User). u.id == user_id) store.users) 500
  let active = other_groups user_id group store
  unless (not (leb settings.max_upload_sessions active && leb user.upload_sessions_max active)) 400

-- The rows of files that the join finds for a link; a deleted file counts as well.
unfoldable pub linked_bytes : List File → ℕ → ℕ
unfolding sum_of select
linked_bytes files id = sum_of (λ (f : File). f.size) (select (λ (f : File). f.id == id) files)

unfoldable pub used_storage : ℕ → Store → ℕ
unfolding linked_bytes sum_of select
used_storage user_id store =
    sum_of (λ (l : Link). linked_bytes store.files l.file_id)
      (select (λ (l : Link). l.user_id == user_id && not l.deleted) store.links)

unfoldable pub pending_storage : ℕ → Store → ℕ
unfolding is_active_of sum_of select
pending_storage user_id store =
    sum_of (λ (s : UploadSession). s.quota_bytes) (select (is_active_of user_id) store.sessions)

-- No caller excludes a group.
unfoldable pub check_storage_quota : ℕ → ℕ → Store → Reply (Unit {0})
unfolding used_storage pending_storage add64 gt64
check_storage_quota user_id additional store = do
  user ← accept_if (first (λ (u : User). u.id == user_id) store.users) 500
  if user.storage == 0 then accept tt else do
    used ← sql_sum (used_storage user_id store)
    pending ← sql_sum (pending_storage user_id store)
    unless (not (gt64 (add64 (add64 used pending) additional) user.storage)) 403
