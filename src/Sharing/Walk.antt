-- ===== src/Sharing/Walk.antt =====
-- ContainsFolder of sharing/folders.go against the parents of a folder.
use videocms.Base.{
  ℕ, zero, suc, ◌<◌, ◌≡◌, refl, sym, ap, subst, ◌∙◌, ◌↔◌, inl, inr, ◌≢◌, true, false, ◌||◌, some,
  List, [], ◌∷◌, arith, ◌==◌, ==_iff, ltb, count_where, first, All, All-map, Bool-cases,
  Option-cases, count_none,
}
use videocms.Media.{Folder, FolderShare, Store}
use videocms.Sharing.{is_own_folder, walk, contains_folder}

-- The root of the share is so many parents above the folder, through live folders of the owner.
pub data Above (folders : List Folder) (share : FolderShare) : ℕ → ℕ → Type 0 where
  root :
      {id : ℕ} (folder : Folder)
      → id ≢ 0
      → first (is_own_folder id share.user_id) folders ≡ some folder
      → folder.id ≡ share.folder_id
      → Above folders share 0 id
  parent :
      {n id : ℕ} (folder : Folder)
      → id ≢ 0
      → first (is_own_folder id share.user_id) folders ≡ some folder
      → folder.id ≢ share.folder_id
      → Above folders share n folder.parent_folder_id
      → Above folders share (suc n) id

module _ {folders : List Folder} {share : FolderShare} where
  -- A folder has one parent, so the way up is unique.
  Above-unique : {n m id : ℕ} → Above folders share n id → Above folders share m id → n ≡ m
  Above-unique (root f _ e _) (root g _ e' _) = refl
  Above-unique (root f _ e h) (parent g _ e' n _) =
      let same : f ≡ g = ground (arith, e, e') in
      absurd (n (ap (λ (x : Folder). x.id) (sym same) ∙ h))
  Above-unique (parent f _ e n _) (root g _ e' h) =
      let same : f ≡ g = ground (arith, e, e') in absurd (n (ap (λ (x : Folder). x.id) same ∙ h))
  Above-unique (parent f _ e _ a) (parent {n = k} g _ e' _ b) =
      let same : g ≡ f = ground (arith, e, e') in
      ap suc
        (Above-unique a (subst (λ (x : Folder). Above folders share k x.parent_folder_id) same b))

module _ (folders : List Folder) (share : FolderShare) where
  -- What a step of the walk looks at: nothing to do, no folder, the root, or a parent.
  walk-Above :
      (rounds : ℕ) (seen : List ℕ) (id : ℕ)
      → walk folders share rounds seen id ≡ true
      → (n : ℕ) × (n < rounds) × Above folders share n id
  unfolding walk
  walk-Above zero seen id h = absurd (cc)
  walk-Above (suc rounds) seen id h =
      elim (Bool-cases (id == 0 || ltb 0 (count_where (λ s. s == id) seen))) [
        | inl stop ↦ absurd (ground arith)
        | inr go ↦ elim (Option-cases (first (is_own_folder id share.user_id) folders)) [
          | inl missing ↦ absurd (ground arith)
          | inr (folder, found) ↦ elim (Bool-cases (folder.id == share.folder_id)) [
            | inl here ↦ (
              0,
              omega arith,
              root folder (ground arith) found ((==_iff folder.id share.folder_id).0 here),
            )
            | inr above ↦
                let (n, less, up) =
                  walk-Above rounds (id ∷ seen) folder.parent_folder_id (ground arith) in
                (suc n, omega arith, parent folder (ground arith) found (ground arith) up)
          ]
        ]
      ]

  -- The rows seen are farther below the root.
  abbrev AreBelow : ℕ → List ℕ → Type 0
  AreBelow n seen = All (λ s. (m : ℕ) × (n < m) × Above folders share m s) seen

  AreBelow-suc : (n : ℕ) (seen : List ℕ) → AreBelow (suc n) seen → AreBelow n seen
  AreBelow-suc n seen h =
      All-map {P = λ s. (m : ℕ) × (suc n < m) × Above folders share m s}
        {Q = λ s. (m : ℕ) × (n < m) × Above folders share m s}
        (λ s (m, less, a). (m, omega arith, a)) seen h

  -- So the folder at hand is not among them.
  AreBelow-count_where :
      (n id : ℕ) (seen : List ℕ)
      → Above folders share n id
      → AreBelow n seen
      → count_where (λ s. s == id) seen ≡ 0
  AreBelow-count_where n id seen a h =
      count_none (λ s. s == id) seen
        (All-map {P = λ s. (m : ℕ) × (n < m) × Above folders share m s} {Q = λ s. (s == id) ≡ false}
          fresh seen h)
    where
      fresh : (s : ℕ) → (m : ℕ) × (n < m) × Above folders share m s → (s == id) ≡ false
      fresh s (m, less, b) = elim (Bool-cases (s == id)) [
        | inl same ↦
            let b' = subst (λ i. Above folders share m i) ((==_iff s id).0 same) b in
            absurd (omega (arith, Above-unique a b'))
        | inr other ↦ other
      ]

  Above-walk :
      (rounds : ℕ) (seen : List ℕ) {n id : ℕ}
      → n < rounds
      → AreBelow n seen
      → Above folders share n id
      → walk folders share rounds seen id ≡ true
  unfolding walk
  Above-walk zero seen less below a = absurd (omega arith)
  Above-walk (suc rounds) seen less below (root {id} folder named found same) =
      let none_seen = AreBelow-count_where 0 id seen (root folder named found same) below in
      rw (walk, none_seen) (ground (arith, found, same))
  Above-walk (suc rounds) seen less below (parent {n} {id} folder named found other up) =
      let a = parent folder named found other up in
      let none_seen = AreBelow-count_where (suc n) id seen a below in
      let rest =
        Above-walk rounds (id ∷ seen) (omega arith)
          ((suc n, omega arith, a), AreBelow-suc n seen below) up in
      rw (walk, none_seen) (ground (arith, found, other, rest))

-- ContainsFolder accepts a folder exactly if the root of the share is reached from it over fewer than
-- 256 parents, all of them live folders of the share's owner; a cycle of parents is never accepted.
pub contains_folder-Above :
    (store : Store) (share : FolderShare) (id : ℕ)
    → (contains_folder store share id ≡ true)
      ↔ ((n : ℕ) × (n < 256) × Above store.folders share n id)
unfolding contains_folder
contains_folder-Above store share id = (
  walk-Above store.folders share 256 [] id,
  λ (n, less, a). Above-walk store.folders share 256 [] less tt a,
)
