-- ===== src/Examples/Folders.antt =====
-- Concrete moves of folders.
use videocms.Base.{some}
use videocms.Base.{
  ℕ, ◌≡◌, refl, inr, false, none, List, [], ◌∷◌, arith, first, update_where, count_where,
}
use videocms.Media.{Folder, Store}
use videocms.Sharing.{validate_folder_destination, is_own_folder}
use videocms.Folders.{
  climb, folder_contains_folder, move_items, target_owner, check_folders, check_folder, check_links,
  move_folders, set_parent, move_links, create_folder,
}
use videocms.Folders.Climb.{folder_contains_folder-climb}
use videocms.Folders.Forest.{ReachesTop, top, up, IsForest}
use videocms.Folders.Changes.{unchanged, and_move, and_create, Changes-IsForest}

abbrev folder : ℕ → ℕ → Folder
folder id parent_id = record { id = id; deleted = false; user_id = 4; parent_folder_id = parent_id }

abbrev store_of : List Folder → Store
store_of folders = record {
  users = [];
  folders = folders;
  files = [];
  links = [];
  shares = [];
  sessions = [];
  parts = [];
  logs = [];
  disk = λ _. none;
}

abbrev before : List Folder
before = folder 1 0 ∷ folder 2 1 ∷ folder 3 0 ∷ []

before-IsForest : IsForest before
unfolding first
before-IsForest =
    let one : ReachesTop before 1 = up (folder 1 0) (λ e. cc) refl top in
    (
      inr one,
      (inr (up (folder 2 1) (λ e. cc) refl one), (inr (up (folder 3 0) (λ e. cc) refl top), tt)),
    )

Changes-IsForest_example : IsForest (folder 1 3 ∷ folder 2 1 ∷ folder 3 0 ∷ folder 4 2 ∷ [])
unfolding move_items target_owner check_folders check_folder folder_contains_folder climb
    check_links move_folders set_parent move_links create_folder first update_where count_where
    validate_folder_destination is_own_folder
Changes-IsForest_example =
    Changes-IsForest {store = store_of before}
      {store' = store_of (folder 1 3 ∷ folder 2 1 ∷ folder 3 0 ∷ folder 4 2 ∷ [])}
      (and_create {mid = store_of (folder 1 3 ∷ folder 2 1 ∷ folder 3 0 ∷ [])} {folder = folder 4 2}
        4 2 4 (and_move {mid = store_of before} false 4 3 (1 ∷ []) [] unchanged refl) (λ e. cc) refl
        refl)
      before-IsForest

-- Two folders that are each other's parents.
abbrev cycle : List Folder
cycle = folder 1 2 ∷ folder 2 1 ∷ []

folder_contains_folder-climb_example :
    climb cycle 9 8 [] 2 ≡ some (folder_contains_folder cycle 9 2)
folder_contains_folder-climb_example = folder_contains_folder-climb cycle 9 2 8 (omega arith)
