-- ===== src/Uploads/Quota.antt =====
-- The storage quota of checkStorageQuota (services/tusupload/service.go): what a pass means, and where
-- the sum of int64s overflows.
use videocms.Base.{add64_small}
use videocms.Base.{
  ℕ, ◌+◌, ◌≤◌, ◌<◌, ◌≡◌, ◌≢◌, some, arith, ◌==◌, first, gt64_small, gt64_wrapped, int64_limit,
}
use videocms.Media.{User, Store, accept}
use videocms.Uploads.Limits.{check_storage_quota, used_storage, pending_storage}

module _ (user_id additional : ℕ) (store : Store) {user : User}
    (found : first (λ (u : User). u.id == user_id) store.users ≡ some user)
    (limited : user.storage ≢ 0) (below : user.storage < int64_limit) where
  -- A pass keeps the sum within the user's storage, if the sum is an int64.
  pub check_storage_quota-le :
      used_storage user_id store + pending_storage user_id store + additional < int64_limit
      → check_storage_quota user_id additional store ≡ accept tt
      → used_storage user_id store + pending_storage user_id store + additional ≤ user.storage
  unfolding check_storage_quota
  check_storage_quota-le fits passed =
      let used = used_storage user_id store in
      let pending = pending_storage user_id store in
      let sum = used + pending + additional in
      let sums = add64_small used pending (omega arith) in
      ground (
        arith,
        found,
        passed,
        sums,
        add64_small (used + pending) additional fits,
        gt64_small sum user.storage fits below,
      )

  -- If the user's links and pending uploads fit an int64, and the sum with the new upload does not,
  -- then checkStorageQuota accepts the upload, however small the user's storage is.
  pub check_storage_quota-overflow :
      used_storage user_id store + pending_storage user_id store < int64_limit
      → additional < int64_limit
      → int64_limit ≤ used_storage user_id store + pending_storage user_id store + additional
      → check_storage_quota user_id additional store ≡ accept tt
  unfolding check_storage_quota
  check_storage_quota-overflow fits small over =
      let used = used_storage user_id store in
      let pending = pending_storage user_id store in
      let wrapped =
        gt64_wrapped (used + pending) additional user.storage fits small below (omega arith) in
      ground (arith, found, add64_small used pending fits, wrapped)
