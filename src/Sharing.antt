-- ===== src/Sharing.antt =====
-- The folder shares of sharing/folders.go and sharing/capacity.go, and ValidateFolderDestination of
-- logic/FolderDestination.go. The children prove what the walk and the subtree come to.
use Prim.Native.String.{len}
use text.Mathlib.Text.{◌==◌ as str_eq}
use videocms.Base.{
  ℕ, zero, suc, ◌+◌, ◌-◌, Bool, true, false, not, ◌&&◌, ◌||◌, Option, none, some, String, List, [],
  ◌∷◌, ◌==◌, ltb, leb, if◌then◌else◌, count_where, first, select, length, map, int64_limit,
}
use videocms.Media.{
  UploadSession, UploadStatus, User, Folder, File, Link, FolderShare, Store, Reply, accept, refuse,
  ◌>>=◌, ◌>>◌, unless, accept_if,
}
pub mod Walk
pub mod Subtree
pub mod Below
pub mod Capacity

-- First(&folder) where id and user_id fit.
unfoldable pub is_own_folder : ℕ → ℕ → Folder → Bool
is_own_folder id user_id folder =
    folder.id == id && (folder.user_id == user_id && not folder.deleted)

unfoldable pub validate_folder_destination : Store → ℕ → ℕ → Reply (Unit {0})
unfolding is_own_folder
validate_folder_destination store id user_id =
    if id == 0 then accept tt else elim (first (is_own_folder id user_id) store.folders) [
      | none ↦ refuse 400
      | some _ ↦ accept tt
    ]

abbrev is_unexpired : ℕ → FolderShare → Bool
is_unexpired now share = elim share.expires_at [ none ↦ true | some at ↦ ltb now at ]

-- Resolve: a share that is there, unexpired, and whose owner and root folder are there.
unfoldable pub resolve : ℕ → String → Store → Option FolderShare
unfolding is_own_folder
resolve now token store =
    if not (len token == 43)
    then none
    else elim (first (λ (s : FolderShare). str_eq s.token token) store.shares) [
      | none ↦ none
      | some share ↦
          if is_unexpired now share
            && (ltb 0 (count_where (λ (u : User). u.id == share.user_id) store.users)
                && ltb 0 (count_where (is_own_folder share.folder_id share.user_id) store.folders))
          then some share
          else none
    ]

-- The loop of ContainsFolder, at most `rounds` times more.
unfoldable pub walk : List Folder → FolderShare → ℕ → List ℕ → ℕ → Bool
unfolding is_own_folder
walk folders share zero seen id = false
walk folders share (suc rounds) seen id =
    elim (id == 0 || ltb 0 (count_where (λ s. s == id) seen)) [
      | true ↦ false
      | false ↦ elim (first (is_own_folder id share.user_id) folders) [
        | none ↦ false
        | some folder ↦ elim (folder.id == share.folder_id) [
          | true ↦ true
          | false ↦ walk folders share rounds (id ∷ seen) folder.parent_folder_id
        ]
      ]
    ]

-- The bound 256 is the code's.
unfoldable pub contains_folder : Store → FolderShare → ℕ → Bool
unfolding walk
contains_folder store share id = walk store.folders share 256 [] id

unfoldable pub contains_link : Store → FolderShare → String → Bool
unfolding contains_folder
contains_link store share uuid =
    elim (first (λ (l : Link). str_eq l.uuid uuid && (l.user_id == share.user_id && not l.deleted))
      store.links) [ none ↦ false | some link ↦ contains_folder store share link.parent_folder_id ]

abbrev pub is_member : List ℕ → ℕ → Bool
is_member ids id = ltb 0 (count_where (λ i. i == id) ids)

abbrev pub is_live_of : ℕ → Folder → Bool
is_live_of user_id folder = folder.user_id == user_id && not folder.deleted

-- One round of the recursive query: the rows found, and the folders with a parent among them.
unfoldable pub grow : ℕ → List Folder → List ℕ → List ℕ
grow user_id folders ids =
    map (λ (f : Folder). f.id)
      (select
        (λ f. is_member ids f.id || (is_live_of user_id f && is_member ids f.parent_folder_id))
        folders)

unfoldable pub grow_times : ℕ → ℕ → List Folder → List ℕ → List ℕ
unfolding grow
grow_times zero user_id folders ids = ids
grow_times (suc rounds) user_id folders ids =
    grow_times rounds user_id folders (grow user_id folders ids)

-- WITH RECURSIVE subtree(id): as many rounds as there are folders.
unfoldable pub subtree : List Folder → FolderShare → List ℕ
unfolding grow_times is_own_folder
subtree folders share =
    grow_times (length folders) share.user_id folders
      (map (λ (f : Folder). f.id) (select (is_own_folder share.folder_id share.user_id) folders))
