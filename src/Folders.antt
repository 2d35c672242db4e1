-- ===== src/Folders.antt =====
-- MoveItems of logic/MoveItems.go, with its walk up the tree of folders, and CreateFolder of
-- logic/CreateFolder.go. Each is one transaction; `admin` is the caller's isAdmin.
use videocms.Base.{
  ℕ, zero, suc, Bool, true, false, not, ◌&&◌, ◌||◌, Option, none, some, List, [], ◌∷◌, ◌++◌, ◌==◌,
  ltb, if◌then◌else◌, first, update_where, length,
}
use videocms.Media.{Folder, Link, Store, Reply, accept, refuse, ◌>>=◌, ◌>>◌, unless, accept_if}
use videocms.Sharing.{is_member, validate_folder_destination}
pub mod Climb
pub mod Forest
pub mod Changes

abbrev pub is_live : ℕ → Folder → Bool
is_live id folder = folder.id == id && not folder.deleted

-- The loop of folderContainsFolder, at most `rounds` times more; none where the rounds do not do.
unfoldable pub climb : List Folder → ℕ → ℕ → List ℕ → ℕ → Option (Reply Bool)
climb folders folder_id zero visited current = none
climb folders folder_id (suc rounds) visited current = elim (current == 0) [
  | true ↦ some (accept false)
  | false ↦ elim (is_member visited current) [
    | true ↦ some (refuse 500)
    | false ↦ elim (first (is_live current) folders) [
      | none ↦ some (refuse 500)
      | some folder ↦ elim (folder.parent_folder_id == folder_id) [
        | true ↦ some (accept true)
        | false ↦ climb folders folder_id rounds (current ∷ visited) folder.parent_folder_id
      ]
    ]
  ]
]

-- The rounds are one more than the folders, with which there is an answer: the other case has none of
-- the code's statuses.
unfoldable pub folder_contains_folder : List Folder → ℕ → ℕ → Reply Bool
unfolding climb
folder_contains_folder folders folder_id searching_id =
    elim (climb folders folder_id (suc (length folders)) [] searching_id) [
      | none ↦ refuse 0
      | some answer ↦ answer
    ]

-- The condition that a caller who is not an administrator sees only what is theirs.
abbrev pub is_visible : Bool → ℕ → Folder → Bool
is_visible admin user_id folder = admin || folder.user_id == user_id

abbrev pub is_own_link : Bool → ℕ → ℕ → Link → Bool
is_own_link admin user_id id link =
    link.id == id && (not link.deleted && (admin || link.user_id == user_id))

-- The owner of the target, where there is one.
unfoldable pub target_owner : Bool → ℕ → ℕ → Store → Reply ℕ
target_owner admin user_id target store =
    if target == 0
    then accept 0
    else elim (first (λ f. is_live target f && is_visible admin user_id f) store.folders) [
      | none ↦ refuse 400
      | some folder ↦ accept folder.user_id
    ]

-- The body of the loop that validates the folders.
unfoldable pub check_folder : Bool → ℕ → ℕ → ℕ → List Folder → ℕ → Reply (Unit {0})
unfolding folder_contains_folder
check_folder admin user_id target owner folders id = do
  unless (not (id == target)) 400
  folder ← accept_if (first (λ f. is_live id f && is_visible admin user_id f) folders) 400
  unless (target == 0 || folder.user_id == owner) 400
  if target == 0
      then accept tt
      else folder_contains_folder folders id target >>= λ contains. unless (not contains) 400

unfoldable pub check_folders : Bool → ℕ → ℕ → ℕ → List Folder → List ℕ → Reply (Unit {0})
unfolding check_folder
check_folders admin user_id target owner folders [] = accept tt
check_folders admin user_id target owner folders (id ∷ rest) =
    check_folder admin user_id target owner folders id
    >> check_folders admin user_id target owner folders rest

unfoldable pub check_links : Bool → ℕ → ℕ → ℕ → List Link → List ℕ → Reply (Unit {0})
check_links admin user_id target owner links [] = accept tt
check_links admin user_id target owner links (id ∷ rest) =
    (accept_if (first (is_own_link admin user_id id) links) 400 >>= λ link.
    unless (target == 0 || link.user_id == owner) 400)
    >> check_links admin user_id target owner links rest

unfoldable pub set_parent : ℕ → Folder → Folder
set_parent target folder = record folder { parent_folder_id = target }

unfoldable pub move_folders : ℕ → List ℕ → List Folder → List Folder
unfolding set_parent
move_folders target [] folders = folders
move_folders target (id ∷ rest) folders =
    move_folders target rest (update_where (is_live id) (set_parent target) folders)

unfoldable pub move_links : ℕ → List ℕ → List Link → List Link
move_links target [] links = links
move_links target (id ∷ rest) links = move_links target rest (
    update_where (λ (l : Link). l.id == id && not l.deleted)
      (λ (l : Link). record l { parent_folder_id = target }) links)

unfoldable pub move_items : Bool → ℕ → ℕ → List ℕ → List ℕ → Store → Reply Store
unfolding target_owner check_folders check_links move_folders move_links
move_items admin user_id target folder_ids link_ids store = do
  unless (not (length folder_ids == 0 && length link_ids == 0)) 400
  owner ← target_owner admin user_id target store
  check_folders admin user_id target owner store.folders folder_ids
  check_links admin user_id target owner store.links link_ids
  accept (record store {
    folders = move_folders target folder_ids store.folders;
    links = move_links target link_ids store.links;
  })

-- The identifier is the one that the database gives.
unfoldable pub create_folder : ℕ → ℕ → ℕ → Store → Reply (Folder × Store)
unfolding validate_folder_destination
create_folder id to_folder user_id store =
    let folder : Folder = record {
      id = id;
      deleted = false;
      user_id = user_id;
      parent_folder_id = to_folder;
    } in
    validate_folder_destination store to_folder user_id
    >> accept (folder, record store { folders = store.folders ++ folder ∷ [] })
