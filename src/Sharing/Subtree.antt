-- ===== src/Sharing/Subtree.antt =====
-- The recursive query of sharing/capacity.go: the rounds given reach its fixed point, and the folders
-- that ContainsFolder accepts are among its rows.
use videocms.Base.{
  ℕ, zero, suc, ◌+◌, ◌≤◌, ◌<◌, ◌≡◌, refl, sym, ap, subst, ◌∙◌, ◌⊎◌, inl, inr, Bool, true, ◌&&◌,
  ◌||◌, some, List, [], ◌∷◌, map, arith, count_where, first, select, length, All, All-map, All-both,
  All-first, All-intro, first-hit, Bool-cases,
}
use videocms.Media.{Folder, FolderShare, Store}
use videocms.Sharing.{
  is_own_folder, contains_folder, is_member, is_live_of, grow, grow_times, subtree,
}
use videocms.Sharing.Walk.{Above, root, parent, contains_folder-Above}

-- A condition that others imply keeps as many rows, and the same rows where it keeps no more.
select_wider {ℓ} :
    {A : Type ℓ} (p q : A → Bool) (xs : List A)
    → All (λ x. p x ≡ true → q x ≡ true) xs
    → (length (select p xs) ≤ length (select q xs))
      × ((select p xs ≡ select q xs) ⊎ (length (select p xs) < length (select q xs)))
unfolding select
select_wider p q [] h = (omega arith, inl refl)
select_wider p q (x ∷ xs) h =
    let (le, cases) = select_wider p q xs h.1 in
    elim (Bool-cases (p x)) [
      | inl yes_p ↦ elim cases [
        | inl same ↦ rw (yes_p, h.0 yes_p, same) (omega arith, inl refl)
        | inr less ↦ rw (yes_p, h.0 yes_p) (omega (arith, le), inr (omega (arith, less)))
      ]
      | inr no_p ↦ elim (Bool-cases (q x)) [
        | inl yes_q ↦ rw (no_p, yes_q) (omega (arith, le), inr (omega (arith, le)))
        | inr no_q ↦ rw (no_p, no_q) (le, cases)
      ]
    ]

length-map_select {ℓ κ} :
    {A : Type ℓ} {B : Type κ} (f : A → B) (xs : List A) → length (map f xs) ≡ length xs
length-map_select f [] = refl
length-map_select f (x ∷ xs) = ap suc (length-map_select f xs)

length-select {ℓ} : {A : Type ℓ} (p : A → Bool) (xs : List A) → length (select p xs) ≤ length xs
unfolding select
length-select p [] = omega arith
length-select p (x ∷ xs) = ground (arith, length-select p xs)

-- The identifiers of the rows that satisfy a condition.
abbrev pub ids_of : (Folder → Bool) → List Folder → List ℕ
ids_of p folders = map (λ (f : Folder). f.id) (select p folders)

ids_of-first :
    (p : Folder → Bool) (x : Folder) (xs : List Folder)
    → p x ≡ true
    → is_member (ids_of p (x ∷ xs)) x.id ≡ true
unfolding select count_where
ids_of-first p x xs e = rw e (ground arith)

ids_of-later :
    (p : Folder → Bool) (x : Folder) (xs : List Folder) (i : ℕ)
    → is_member (ids_of p xs) i ≡ true
    → is_member (ids_of p (x ∷ xs)) i ≡ true
unfolding select count_where
ids_of-later p x xs i h = elim (Bool-cases (p x)) [
  | inl hit ↦ rw hit (ground (arith, h))
  | inr miss ↦ rw miss h
]

pub ids_of-member :
    (p : Folder → Bool) (folders : List Folder)
    → All (λ f. p f ≡ true → is_member (ids_of p folders) f.id ≡ true) folders
ids_of-member p [] = tt
ids_of-member p (x ∷ xs) = (
  ids_of-first p x xs,
  All-map {P = λ f. p f ≡ true → is_member (ids_of p xs) f.id ≡ true}
      {Q = λ f. p f ≡ true → is_member (ids_of p (x ∷ xs)) f.id ≡ true}
      (λ f h e. ids_of-later p x xs f.id (h e)) xs (ids_of-member p xs),
)

module _ (user_id : ℕ) (folders : List Folder) where
  abbrev pub grows : List ℕ → Folder → Bool
  grows ids f = is_member ids f.id || (is_live_of user_id f && is_member ids f.parent_folder_id)

  -- One round finds at least one more row, or it is the last that finds any.
  grow-cases :
      (p : Folder → Bool)
      → let ids = ids_of p folders in
        (grow user_id folders ids ≡ ids) ⊎ (length ids < length (grow user_id folders ids))
  unfolding grow
  grow-cases p =
      let ids = ids_of p folders in
      let wider = select_wider p (grows ids) folders (
        All-map {P = λ f. p f ≡ true → is_member ids f.id ≡ true}
          {Q = λ f. p f ≡ true → grows ids f ≡ true} (λ f h e. ground (arith, h e)) folders
          (ids_of-member p folders)) in
      elim wider.1 [
        | inl same ↦ inl (ap (map (λ (f : Folder). f.id)) (sym same))
        | inr less ↦ inr (
            omega (
              arith,
              less,
              length-map_select (λ (f : Folder). f.id) (select p folders),
              length-map_select (λ (f : Folder). f.id) (select (grows ids) folders),
            ))
      ]

  grow_times-fixed :
      (rounds : ℕ) (ids : List ℕ)
      → grow user_id folders ids ≡ ids
      → grow_times rounds user_id folders ids ≡ ids
  unfolding grow_times
  grow_times-fixed zero ids h = refl
  grow_times-fixed (suc rounds) ids h = rw h (grow_times-fixed rounds ids h)

  grow_times-cases :
      (rounds : ℕ) (p : Folder → Bool)
      → let ids = ids_of p folders in
        let last = grow_times rounds user_id folders ids in
        (grow user_id folders last ≡ last) ⊎ (length ids + rounds ≤ length last)
  unfolding grow_times
  grow_times-cases zero p = inr (omega arith)
  grow_times-cases (suc rounds) p = elim (grow-cases p) [
    | inl same ↦ inl (rw (same, grow_times-fixed rounds (ids_of p folders) same) same)
    | inr less ↦ elim (grow_times-cases rounds (grows (ids_of p folders))) [
      | inl done ↦ inl (unfold grow in done)
      | inr more ↦ inr (unfold grow in omega (arith, less, more))
    ]
  ]

  -- With no row at the start there is none at the end.
  grow-empty : grow user_id folders [] ≡ []
  unfolding grow count_where select
  grow-empty = empty folders
    where
      empty : (fs : List Folder) → ids_of (grows []) fs ≡ []
      empty [] = refl
      empty (f ∷ fs) = ground (arith, empty fs)

  length-grow_times :
      (rounds : ℕ) (p : Folder → Bool)
      → length (grow_times rounds user_id folders (ids_of p folders)) ≤ length folders
  unfolding grow_times
  length-grow_times zero p =
      omega (
        arith,
        length-map_select (λ (f : Folder). f.id) (select p folders),
        length-select p folders,
      )
  length-grow_times (suc rounds) p =
      unfold grow in length-grow_times rounds (grows (ids_of p folders))

length_zero {ℓ} : {A : Type ℓ} (xs : List A) → length xs ≡ 0 → xs ≡ []
length_zero [] h = refl
length_zero (x ∷ xs) h = absurd (omega arith)

own_folder_lem :
    (id user_id : ℕ) (f : Folder)
    → is_own_folder id user_id f ≡ true
    → (f.id ≡ id) × (is_live_of user_id f ≡ true)
unfolding is_own_folder
own_folder_lem id user_id f h = (ground arith, ground arith)

module _ (folders : List Folder) (share : FolderShare) where
  -- The rounds are enough: another one finds nothing new.
  pub subtree-grow : grow share.user_id folders (subtree folders share) ≡ subtree folders share
  unfolding subtree
  subtree-grow =
      let root_row = is_own_folder share.folder_id share.user_id in
      let ids = ids_of root_row folders in
      let most = length-grow_times share.user_id folders (length folders) root_row in
      elim (grow_times-cases share.user_id folders (length folders) root_row) [
        | inl fixed ↦ fixed
        | inr long ↦
            let none_yet : ids ≡ [] = length_zero ids (omega (arith, long, most)) in
            let fixed = rw (← none_yet) at (grow-empty share.user_id folders) in
            rw (grow_times-fixed share.user_id folders (length folders) ids fixed) fixed
      ]

  -- The root is in the subtree, if it is there.
  pub kept :
      (rounds : ℕ) (ids : List ℕ)
      → All
          (λ (f : Folder).
            is_member ids f.id ≡ true
            → is_member (grow_times rounds share.user_id folders ids) f.id ≡ true)
          folders
  unfolding grow_times
  kept zero ids = All-intro (λ f h. h) folders
  kept (suc rounds) ids =
      All-both
        {P = λ (f : Folder).
          grows share.user_id folders ids f ≡ true
          → is_member (grow share.user_id folders ids) f.id ≡ true}
        {Q = λ (f : Folder).
          is_member (grow share.user_id folders ids) f.id ≡ true
          → is_member (grow_times rounds share.user_id folders (grow share.user_id folders ids))
              f.id
            ≡ true}
        {R = λ (f : Folder).
          is_member ids f.id ≡ true
          → is_member (grow_times rounds share.user_id folders (grow share.user_id folders ids))
              f.id
            ≡ true}
        (λ f one more h. more (one (ground (arith, h)))) folders
        (unfold grow in ids_of-member (grows share.user_id folders ids) folders)
        (kept rounds (grow share.user_id folders ids))

  subtree-root :
      {folder : Folder}
      → first (is_own_folder share.folder_id share.user_id) folders ≡ some folder
      → is_member (subtree folders share) folder.id ≡ true
  unfolding subtree
  subtree-root {folder} e =
      let root_row = is_own_folder share.folder_id share.user_id in
      let ids = ids_of root_row folders in
      let start =
        All-first (λ f. root_row f ≡ true → is_member ids f.id ≡ true) root_row folders
          (ids_of-member root_row folders) e (first-hit root_row folders e) in
      All-first
        (λ (f : Folder).
          is_member ids f.id ≡ true
          → is_member (grow_times (length folders) share.user_id folders ids) f.id ≡ true)
        root_row folders (kept (length folders) ids) e start

  -- A live folder of the owner is in the subtree, if its parent is.
  pub subtree-child :
      All
        (λ (f : Folder).
          is_live_of share.user_id f ≡ true
          → is_member (subtree folders share) f.parent_folder_id ≡ true
          → is_member (subtree folders share) f.id ≡ true)
        folders
  subtree-child =
      let here = ids_of-member (grows share.user_id folders (subtree folders share)) folders in
      All-map
        {P = λ (f : Folder).
          grows share.user_id folders (subtree folders share) f ≡ true
          → is_member (ids_of (grows share.user_id folders (subtree folders share)) folders) f.id
            ≡ true}
        {Q = λ (f : Folder).
          is_live_of share.user_id f ≡ true
          → is_member (subtree folders share) f.parent_folder_id ≡ true
          → is_member (subtree folders share) f.id ≡ true}
        (λ f h live up. rw (← subtree-grow) (unfold grow in h (ground (arith, live, up)))) folders
        here

  Above-subtree :
      {n id : ℕ} → Above folders share n id → is_member (subtree folders share) id ≡ true
  Above-subtree (root {id} folder named found same) =
      let (own, live) = own_folder_lem id share.user_id folder (first-hit _ folders found) in
      let found' =
        subst (λ (i : ℕ). first (is_own_folder i share.user_id) folders ≡ some folder)
          (sym own ∙ same) found in
      subst (λ (i : ℕ). is_member (subtree folders share) i ≡ true) own (subtree-root found')
  Above-subtree (parent {n} {id} folder named found other up) =
      let (own, live) = own_folder_lem id share.user_id folder (first-hit _ folders found) in
      let child =
        All-first
          (λ (f : Folder).
            is_live_of share.user_id f ≡ true
            → is_member (subtree folders share) f.parent_folder_id ≡ true
            → is_member (subtree folders share) f.id ≡ true)
          (is_own_folder id share.user_id) folders subtree-child found in
      subst (λ (i : ℕ). is_member (subtree folders share) i ≡ true) own
        (child live (Above-subtree up))

-- Every folder that ContainsFolder accepts is one whose videos UploadCapacity counts.
pub contains_folder-subtree :
    (store : Store) (share : FolderShare) (id : ℕ)
    → contains_folder store share id ≡ true
    → is_member (subtree store.folders share) id ≡ true
contains_folder-subtree store share id h =
    Above-subtree store.folders share ((contains_folder-Above store share id).0 h).2
