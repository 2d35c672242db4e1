-- ===== src/Folders/Forest.antt =====
-- The tree of folders under MoveItems and CreateFolder: every live folder leads up to the top.
use videocms.Base.{Option, some, none}
use videocms.Base.{
  ℕ, zero, suc, ◌≡◌, ◌≢◌, refl, sym, ap, subst, ◌∙◌, ◌⊎◌, inl, inr, Bool, true, false, not, ◌&&◌,
  ◌||◌, some, List, [], ◌∷◌, arith, ◌==◌, ==_iff, first, first-update_where, first-hit,
  update_where, All, All-map, All-first, All-update_where, Bool-cases, Option-cases, length,
  if◌then◌else◌,
}
use videocms.Media.{Folder, Store, Reply, accept, refuse, ◌>>=◌, unless, accept_if, accept->>=}
use videocms.Sharing.{is_member}
use videocms.Folders.{
  is_live, is_visible, climb, folder_contains_folder, check_folder, check_folders, check_links,
  target_owner, move_folders, set_parent, move_items,
}
use videocms.Uploads.Created.{then-accept}

-- The top is reached from the folder, through live parents.
pub data ReachesTop (folders : List Folder) : ℕ → Type 0 where
  top : ReachesTop folders 0
  up :
      {id : ℕ} (folder : Folder)
      → id ≢ 0
      → first (is_live id) folders ≡ some folder
      → ReachesTop folders folder.parent_folder_id
      → ReachesTop folders id

abbrev pub IsForest : List Folder → Type 0
IsForest folders = All (λ (f : Folder). (f.deleted ≡ true) ⊎ ReachesTop folders f.id) folders

-- The search for one folder above another has come back with nothing.
abbrev IsClear : List Folder → ℕ → ℕ → Type 0
IsClear folders folder_id current =
    (rounds : ℕ) × (visited : List ℕ) × (climb folders folder_id rounds visited current
      ≡ some (accept false))

-- So the parent is not the folder, and the search from there comes back with nothing.
climb_parent :
    (folders : List Folder) (folder_id : ℕ) {current : ℕ} {folder : Folder}
    → IsClear folders folder_id current
    → current ≢ 0
    → first (is_live current) folders ≡ some folder
    → ((folder_id == folder.parent_folder_id) ≡ false)
      × IsClear folders folder_id folder.parent_folder_id
unfolding climb
climb_parent folders folder_id (zero, visited, e) other found = absurd (cc)
climb_parent folders folder_id {current} {folder} (suc rounds, visited, e) other found =
    let away : (current == 0) ≡ false = ground (arith, other) in
    elim (Bool-cases (is_member visited current)) [
      | inl again ↦ absurd (ground (arith, e, away, again))
      | inr fresh ↦ elim (Bool-cases (folder.parent_folder_id == folder_id)) [
        | inl hit ↦ absurd (ground (arith, e, away, fresh, found, hit))
        | inr miss ↦ (
          ground (arith, miss),
          (rounds, current ∷ visited, ground (arith, e, away, fresh, found, miss)),
        )
      ]
    ]

module _ (target : ℕ) where
  -- The row of a folder after the move: its parent is what it was, or the target.
  moved-first :
      (ids : List ℕ) (folders : List Folder) (c : ℕ) {folder : Folder}
      → first (is_live c) folders ≡ some folder
      → (row : Folder) × (first (is_live c) (move_folders target ids folders) ≡ some row)
        × ((row.parent_folder_id ≡ folder.parent_folder_id) ⊎ (row.parent_folder_id ≡ target))
  unfolding move_folders
  moved-first [] folders c {folder} e = (folder, e, inl refl)
  moved-first (id ∷ ids) folders c {folder} e =
      let next = if is_live id folder then set_parent target folder else folder in
      let (row, found, parent) =
        moved-first ids (update_where (is_live id) (set_parent target) folders) c {folder = next} (
          first-update_where (is_live c) (is_live id) (set_parent target)
            (λ f. unfold set_parent in refl) folders e) in
      (row, found, unfold set_parent in ground (arith, parent))

  -- A folder that is not moved keeps its row.
  unmoved-first :
      (ids : List ℕ) (folders : List Folder) (c : ℕ) {folder : Folder}
      → first (is_live c) folders ≡ some folder
      → All (λ id. (id == c) ≡ false) ids
      → first (is_live c) (move_folders target ids folders) ≡ some folder
  unfolding move_folders
  unmoved-first [] folders c e h = e
  unmoved-first (id ∷ ids) folders c {folder} e h =
      let step =
        first-update_where (is_live c) (is_live id) (set_parent target)
          (λ f. unfold set_parent in refl) folders e in
      unmoved-first ids (update_where (is_live id) (set_parent target) folders) c {folder = folder}
        (step ∙ ap some (other folder (first-hit (is_live c) folders e))) h.1
    where
      other :
          (row : Folder)
          → is_live c row ≡ true
          → (if is_live id row then set_parent target row else row) ≡ row
      other row hit = ground (arith, hit, h.0)

  -- A folder below which nothing is moved leads up to the top as before.
  ReachesTop-unmoved :
      (ids : List ℕ) (folders : List Folder) {c : ℕ}
      → ReachesTop folders c
      → All (λ id. ((id == c) ≡ false) × IsClear folders id c) ids
      → ReachesTop (move_folders target ids folders) c
  ReachesTop-unmoved ids folders top h = top
  ReachesTop-unmoved ids folders {c} (up folder other found reach) h =
      up folder other
        (unmoved-first ids folders c found (
          All-map {P = λ id. ((id == c) ≡ false) × IsClear folders id c}
            {Q = λ id. (id == c) ≡ false} (λ id k. k.0) ids h))
        (ReachesTop-unmoved ids folders reach (
          All-map {P = λ id. ((id == c) ≡ false) × IsClear folders id c}
            {Q = λ id.
              ((id == folder.parent_folder_id) ≡ false)
              × IsClear folders id folder.parent_folder_id}
            (λ id k. climb_parent folders id k.1 other found) ids h))

  -- So every folder does, if the target does.
  ReachesTop-moved :
      (ids : List ℕ) (folders : List Folder) {c : ℕ}
      → ReachesTop (move_folders target ids folders) target
      → ReachesTop folders c
      → ReachesTop (move_folders target ids folders) c
  ReachesTop-moved ids folders goal top = top
  ReachesTop-moved ids folders {c} goal (up folder other found reach) =
      let after = move_folders target ids folders in
      let (row, found', parent) = moved-first ids folders c found in
      elim parent [
        | inl same ↦ up row other found' (
            subst (λ (i : ℕ). ReachesTop after i) (sym same)
              (ReachesTop-moved ids folders goal reach))
        | inr moved ↦ up row other found' (subst (λ (i : ℕ). ReachesTop after i) (sym moved) goal)
      ]

  -- What holds of the rows by their identifiers holds after the move.
  rows-moved :
      (P : ℕ → Type 0) (ids : List ℕ) (folders : List Folder)
      → All (λ (f : Folder). (f.deleted ≡ true) ⊎ P f.id) folders
      → All (λ (f : Folder). (f.deleted ≡ true) ⊎ P f.id) (move_folders target ids folders)
  unfolding move_folders set_parent
  rows-moved P [] folders h = h
  rows-moved P (id ∷ ids) folders h =
      rows-moved P ids (update_where (is_live id) (set_parent target) folders) (
        All-update_where {P = λ (f : Folder). (f.deleted ≡ true) ⊎ P f.id}
          {Q = λ (f : Folder). (f.deleted ≡ true) ⊎ P f.id} (is_live id) (set_parent target)
          (λ f k _. k) (λ f k _. k) folders h)

-- A check that a Boolean answer is false.
accept-false :
    (reply : Reply Bool)
    → (reply >>= λ contains. unless (not contains) 400) ≡ accept tt
    → reply ≡ accept false
accept-false (accept true) h = cc
accept-false (accept false) h = refl
accept-false (refuse status) h = cc

answered :
    (walk : Option (Reply Bool))
    → elim walk as (λ _. Reply Bool) [ none ↦ refuse 0 | some answer ↦ answer ] ≡ accept false
    → walk ≡ some (accept false)
answered none h = cc
answered (some answer) h = ap some h

check_folder-IsClear :
    (admin : Bool) (user_id target owner : ℕ) (folders : List Folder) (id : ℕ)
    → target ≢ 0
    → check_folder admin user_id target owner folders id ≡ accept tt
    → ((id == target) ≡ false) × IsClear folders id target
unfolding check_folder folder_contains_folder
check_folder-IsClear admin user_id target owner folders id other e =
    let away : (target == 0) ≡ false = ground (arith, other) in
    let (apart, e₁) = then-accept (unless (not (id == target)) 400) _ e in
    let (folder, _, e₂) =
      accept->>= (accept_if (first (λ f. is_live id f && is_visible admin user_id f) folders) 400)
        (λ _. _) e₁ in
    let (_, e₃) = then-accept (unless (target == 0 || folder.user_id == owner) 400) _ e₂ in
    let searched : (folder_contains_folder folders id target >>= λ contains.
    unless (not contains) 400)
        ≡ accept tt =
      rw away at e₃ in
    (
      ground (arith, apart),
      (
        suc (length folders),
        [],
        answered (climb folders id (suc (length folders)) [] target)
            (accept-false (folder_contains_folder folders id target) searched),
      ),
    )

check_folders-All :
    (admin : Bool) (user_id target owner : ℕ) (folders : List Folder) (ids : List ℕ)
    → target ≢ 0
    → check_folders admin user_id target owner folders ids ≡ accept tt
    → All (λ id. ((id == target) ≡ false) × IsClear folders id target) ids
unfolding check_folders
check_folders-All admin user_id target owner folders [] other e = tt
check_folders-All admin user_id target owner folders (id ∷ ids) other e =
    let (here, rest) = then-accept (check_folder admin user_id target owner folders id) _ e in
    (
      check_folder-IsClear admin user_id target owner folders id other here,
      check_folders-All admin user_id target owner folders ids other rest,
    )

-- A target that is found leads up to the top.
target_owner-ReachesTop :
    (admin : Bool) (user_id target : ℕ) (store : Store) {owner : ℕ}
    → target_owner admin user_id target store ≡ accept owner
    → IsForest store.folders
    → (target ≡ 0) ⊎ ((target ≢ 0) × ReachesTop store.folders target)
unfolding target_owner
target_owner-ReachesTop admin user_id target store e forest =
    let sees = λ (f : Folder). is_live target f && is_visible admin user_id f in
    elim (Bool-cases (target == 0)) [
      | inl none_given ↦ inl ((==_iff target 0).0 none_given)
      | inr given ↦ elim (Option-cases (first sees store.folders)) [
        | inl missing ↦ absurd (ground (arith, e, given, missing))
        | inr (folder, found) ↦ inr (
          (λ zero_target. ground (arith, given, zero_target)),
          reached folder (first-hit sees store.folders found) (
              All-first (λ (f : Folder). (f.deleted ≡ true) ⊎ ReachesTop store.folders f.id) sees
                store.folders forest found),
        )
      ]
    ]
  where
    reached :
        (folder : Folder)
        → (is_live target folder && is_visible admin user_id folder) ≡ true
        → (folder.deleted ≡ true) ⊎ ReachesTop store.folders folder.id
        → ReachesTop store.folders target
    reached folder hit (inl gone) = absurd (ground (arith, hit, gone))
    reached folder hit (inr reach) =
        subst (λ (i : ℕ). ReachesTop store.folders i) (ground (arith, hit)) reach

pub move_items-IsForest :
    (admin : Bool) (user_id target : ℕ) (folder_ids link_ids : List ℕ) (store : Store)
    {store' : Store}
    → move_items admin user_id target folder_ids link_ids store ≡ accept store'
    → IsForest store.folders
    → IsForest store'.folders
unfolding move_items
move_items-IsForest admin user_id target folder_ids link_ids store {store'} e forest =
    let (_, e₁) =
      then-accept (unless (not (length folder_ids == 0 && length link_ids == 0)) 400) _ e in
    let (owner, owned, e₂) = accept->>= (target_owner admin user_id target store) (λ _. _) e₁ in
    let (checked, e₃) =
      then-accept (check_folders admin user_id target owner store.folders folder_ids) _ e₂ in
    let (_, made) =
      then-accept (check_links admin user_id target owner store.links link_ids) _ e₃ in
    let after = move_folders target folder_ids store.folders in
    let goal : ReachesTop after target =
      elim (target_owner-ReachesTop admin user_id target store owned forest) [
        | inl zero_target ↦ subst (λ (i : ℕ). ReachesTop after i) (sym zero_target) top
        | inr (other, reach) ↦
            ReachesTop-unmoved target folder_ids store.folders reach
              (check_folders-All admin user_id target owner store.folders folder_ids other checked)
      ] in
    subst (λ (s : Store). IsForest s.folders) (stored made)
      (rows-moved target (ReachesTop after) folder_ids store.folders (
        All-map {P = λ (f : Folder). (f.deleted ≡ true) ⊎ ReachesTop store.folders f.id}
          {Q = λ (f : Folder). (f.deleted ≡ true) ⊎ ReachesTop after f.id} (λ f k. moved f k goal)
          store.folders forest))
  where
    stored : {a b : Store} → ◌≡◌ {A = Reply Store} (accept a) (accept b) → a ≡ b
    stored h = cc

    moved :
        (f : Folder)
        → (f.deleted ≡ true) ⊎ ReachesTop store.folders f.id
        → ReachesTop (move_folders target folder_ids store.folders) target
        → (f.deleted ≡ true) ⊎ ReachesTop (move_folders target folder_ids store.folders) f.id
    moved f (inl gone) goal = inl gone
    moved f (inr reach) goal = inr (ReachesTop-moved target folder_ids store.folders goal reach)
