-- ===== src/Sharing/Below.antt =====
-- The recursive query of sharing/capacity.go against what it is to stand below the root of a share.
use videocms.Base.{
  ℕ, zero, suc, ◌≡◌, subst, ◌↔◌, inl, inr, Bool, true, List, [], ◌∷◌, arith, ◌==◌, ==_iff,
  count_where, select, length, All, Bool-cases,
}
use videocms.Media.{Folder, FolderShare}
use videocms.Sharing.{is_own_folder, is_member, is_live_of, grow, grow_times, subtree}
use videocms.Sharing.Subtree.{ids_of, ids_of-member, grows, kept, subtree-child}

pub data Row : List Folder → Folder → Type 0 where
  here : {folder : Folder} {folders : List Folder} → Row (folder ∷ folders) folder
  later :
      {folder other : Folder} {folders : List Folder}
      → Row folders folder
      → Row (other ∷ folders) folder

-- The identifiers of the root and of what lies below it, through live folders of the share's owner.
pub data Below (folders : List Folder) (share : FolderShare) : ℕ → Type 0 where
  root :
      (folder : Folder)
      → Row folders folder
      → is_own_folder share.folder_id share.user_id folder ≡ true
      → Below folders share folder.id
  child :
      (folder : Folder)
      → Row folders folder
      → is_live_of share.user_id folder ≡ true
      → Below folders share folder.parent_folder_id
      → Below folders share folder.id

All-Row :
    (P : Folder → Type 0) {folders : List Folder} {folder : Folder}
    → Row folders folder
    → All P folders
    → P folder
All-Row P here h = h.0
All-Row P (later row) h = All-Row P row h.1

-- An identifier among those of the rows selected is one of such a row.
ids_of-Row :
    (p : Folder → Bool) (folders : List Folder) (id : ℕ)
    → is_member (ids_of p folders) id ≡ true
    → (folder : Folder) × Row folders folder × (p folder ≡ true) × (folder.id ≡ id)
unfolding select count_where
ids_of-Row p [] id h = absurd (ground (arith, h))
ids_of-Row p (x ∷ xs) id h = elim (Bool-cases (p x)) [
  | inl hit ↦ elim (Bool-cases (x.id == id)) [
    | inl same ↦ (x, here, hit, (==_iff x.id id).0 same)
    | inr other ↦
        let (folder, row, chosen, same) = ids_of-Row p xs id (ground (arith, h, hit, other)) in
        (folder, later row, chosen, same)
  ]
  | inr miss ↦
      let (folder, row, chosen, same) = ids_of-Row p xs id (ground (arith, h, miss)) in
      (folder, later row, chosen, same)
]

module _ (folders : List Folder) (share : FolderShare) where
  grow-Below :
      (ids : List ℕ)
      → ((id : ℕ) → is_member ids id ≡ true → Below folders share id)
      → (id : ℕ) → is_member (grow share.user_id folders ids) id ≡ true
      → Below folders share id
  unfolding grow
  grow-Below ids below id h =
      let (folder, row, hit, same) = ids_of-Row (grows share.user_id folders ids) folders id h in
      subst (λ (i : ℕ). Below folders share i) same
        (elim (Bool-cases (is_member ids folder.id)) [
          | inl old ↦ below folder.id old
          | inr new ↦
              child folder row (ground (arith, hit, new))
                (below folder.parent_folder_id (ground (arith, hit, new)))
        ])

  grow_times-Below :
      (rounds : ℕ) (ids : List ℕ)
      → ((id : ℕ) → is_member ids id ≡ true → Below folders share id)
      → (id : ℕ) → is_member (grow_times rounds share.user_id folders ids) id ≡ true
      → Below folders share id
  unfolding grow_times
  grow_times-Below zero ids below = below
  grow_times-Below (suc rounds) ids below =
      grow_times-Below rounds (grow share.user_id folders ids) (grow-Below ids below)

  subtree_sound : (id : ℕ) → is_member (subtree folders share) id ≡ true → Below folders share id
  unfolding subtree
  subtree_sound =
      let root_row = is_own_folder share.folder_id share.user_id in
      grow_times-Below (length folders) (ids_of root_row folders) (λ id h.
        let (folder, row, hit, same) = ids_of-Row root_row folders id h in
        subst (λ (i : ℕ). Below folders share i) same (root folder row hit))

  subtree_complete : {id : ℕ} → Below folders share id → is_member (subtree folders share) id ≡ true
  unfolding subtree
  subtree_complete (root folder row own) =
      let root_row = is_own_folder share.folder_id share.user_id in
      let ids = ids_of root_row folders in
      All-Row
        (λ (f : Folder).
          is_member ids f.id ≡ true
          → is_member (grow_times (length folders) share.user_id folders ids) f.id ≡ true)
        row (kept folders share (length folders) ids)
        (All-Row (λ (f : Folder). root_row f ≡ true → is_member ids f.id ≡ true) row
          (ids_of-member root_row folders) own)
  subtree_complete (child folder row live up) =
      All-Row
        (λ (f : Folder).
          is_live_of share.user_id f ≡ true
          → is_member (subtree folders share) f.parent_folder_id ≡ true
          → is_member (subtree folders share) f.id ≡ true)
        row (subtree-child folders share) live (subtree_complete up)

-- The recursive query finds exactly the root of the share, if it is a live folder of the share's owner,
-- and the folders below it, through live folders of that owner.
pub subtree-Below :
    (folders : List Folder) (share : FolderShare) (id : ℕ)
    → (is_member (subtree folders share) id ≡ true) ↔ Below folders share id
subtree-Below folders share id = (subtree_sound folders share id, subtree_complete folders share)
