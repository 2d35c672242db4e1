-- ===== src/Folders/Changes.antt =====
-- CreateFolder, and sequences of moves and creations of folders.
use videocms.Base.{
  ℕ, ◌≡◌, ◌≢◌, refl, sym, subst, ◌∙◌, ◌⊎◌, inl, inr, Bool, true, false, none, some, List, [], ◌∷◌,
  ◌++◌, arith, ◌==◌, ==_iff, first, first-hit, All-map, All-first, All-append, Bool-cases,
  Option-cases, first-append, first-append_miss,
}
use videocms.Media.{Folder, Store, Reply, accept}
use videocms.Sharing.{is_own_folder, validate_folder_destination}
use videocms.Folders.{is_live, move_items, create_folder}
use videocms.Uploads.Created.{then-accept}
use videocms.Folders.Forest.{ReachesTop, top, up, IsForest, move_items-IsForest}

-- Rows added at the end do not cut a folder off.
ReachesTop-append :
    (folders more : List Folder) {c : ℕ} → ReachesTop folders c → ReachesTop (folders ++ more) c
ReachesTop-append folders more top = top
ReachesTop-append folders more {c} (up folder other found reach) =
    up folder other (first-append (is_live c) folders more found)
      (ReachesTop-append folders more reach)

destination-ReachesTop :
    (store : Store) (to_folder user_id : ℕ)
    → validate_folder_destination store to_folder user_id ≡ accept tt
    → IsForest store.folders
    → ReachesTop store.folders to_folder
unfolding validate_folder_destination is_own_folder
destination-ReachesTop store to_folder user_id e forest = elim (Bool-cases (to_folder == 0)) [
  | inl none_given ↦
      subst (λ (i : ℕ). ReachesTop store.folders i) (sym ((==_iff to_folder 0).0 none_given)) top
  | inr given ↦ elim (Option-cases (first (is_own_folder to_folder user_id) store.folders)) [
    | inl missing ↦ absurd (ground (arith, e, given, missing))
    | inr (folder, found) ↦
        reached folder (first-hit (is_own_folder to_folder user_id) store.folders found) (
          All-first (λ (f : Folder). (f.deleted ≡ true) ⊎ ReachesTop store.folders f.id)
            (is_own_folder to_folder user_id) store.folders forest found)
  ]
]
  where
    reached :
        (folder : Folder)
        → is_own_folder to_folder user_id folder ≡ true
        → (folder.deleted ≡ true) ⊎ ReachesTop store.folders folder.id
        → ReachesTop store.folders to_folder
    reached folder hit (inl gone) = absurd (ground (arith, hit, gone))
    reached folder hit (inr reach) =
        subst (λ (i : ℕ). ReachesTop store.folders i) (ground (arith, hit)) reach

create_folder-IsForest :
    (id to_folder user_id : ℕ) (store : Store) {folder : Folder} {store' : Store}
    → id ≢ 0
    → first (is_live id) store.folders ≡ none
    → create_folder id to_folder user_id store ≡ accept (folder, store')
    → IsForest store.folders
    → IsForest store'.folders
unfolding create_folder
create_folder-IsForest id to_folder user_id store {folder} {store'} other fresh e forest =
    let (valid, made) = then-accept (validate_folder_destination store to_folder user_id) _ e in
    let row : Folder = record {
      id = id;
      deleted = false;
      user_id = user_id;
      parent_folder_id = to_folder;
    } in
    let after = store.folders ++ row ∷ [] in
    let parent : ReachesTop after to_folder =
      ReachesTop-append store.folders (row ∷ [])
        (destination-ReachesTop store to_folder user_id valid forest) in
    let own : first (is_live id) after ≡ some row =
      first-append_miss (is_live id) store.folders (row ∷ []) fresh
      ∙ single row (rw ((==_iff id id).1 refl) refl) in
    subst (λ (s : Store). IsForest s.folders) (stored made)
      (All-append (λ (f : Folder). (f.deleted ≡ true) ⊎ ReachesTop after f.id) store.folders
        (row ∷ [])
        (All-map {P = λ (f : Folder). (f.deleted ≡ true) ⊎ ReachesTop store.folders f.id}
          {Q = λ (f : Folder). (f.deleted ≡ true) ⊎ ReachesTop after f.id} (λ f k. kept row f k)
          store.folders forest)
        (inr (up row other own parent), tt))
  where
    stored :
        {f g : Folder} {a b : Store}
        → ◌≡◌ {A = Reply (Folder × Store)} (accept (f, a)) (accept (g, b))
        → a ≡ b
    stored h = cc

    single : (f : Folder) → is_live f.id f ≡ true → first (is_live f.id) (f ∷ []) ≡ some f
    single f live = unfold first in rw live refl

    kept :
        (row f : Folder)
        → (f.deleted ≡ true) ⊎ ReachesTop store.folders f.id
        → (f.deleted ≡ true) ⊎ ReachesTop (store.folders ++ row ∷ []) f.id
    kept row f (inl gone) = inl gone
    kept row f (inr reach) = inr (ReachesTop-append store.folders (row ∷ []) reach)

-- Moves and creations, one after the other. A new identifier is one that no live folder has.
pub data Changes (store : Store) : Store → Type 0 where
  unchanged : Changes store store
  and_move :
      {mid store' : Store} (admin : Bool) (user_id target : ℕ) (folder_ids link_ids : List ℕ)
      → Changes store mid
      → move_items admin user_id target folder_ids link_ids mid ≡ accept store'
      → Changes store store'
  and_create :
      {mid store' : Store} {folder : Folder} (id to_folder user_id : ℕ)
      → Changes store mid
      → id ≢ 0
      → first (is_live id) mid.folders ≡ none
      → create_folder id to_folder user_id mid ≡ accept (folder, store')
      → Changes store store'

-- No sequence of moves and creations of folders makes a cycle: if every live folder leads up to the
-- top through live folders, then every one still does.
pub Changes-IsForest :
    {store store' : Store} → Changes store store' → IsForest store.folders → IsForest store'.folders
Changes-IsForest unchanged h = h
Changes-IsForest (and_move {mid} admin user_id target folder_ids link_ids before e) h =
    move_items-IsForest admin user_id target folder_ids link_ids mid e (Changes-IsForest before h)
Changes-IsForest (and_create {mid} id to_folder user_id before other fresh e) h =
    create_folder-IsForest id to_folder user_id mid other fresh e (Changes-IsForest before h)
