-- ===== src/Folders/Climb.antt =====
-- folderContainsFolder of logic/MoveItems.go: the rounds given to its loop are enough.
use videocms.Base.{
  ℕ, zero, suc, ◌+◌, ◌≤◌, ◌<◌, ◌≡◌, refl, subst, inl, inr, Bool, true, false, not, ◌&&◌, some, List,
  [], ◌∷◌, arith, ◌==◌, count_where, first, length, Bool-cases, Option-cases,
}
use videocms.Media.{Folder, Reply, accept, refuse}
use videocms.Sharing.{is_member}
use videocms.Folders.{is_live, climb, folder_contains_folder}

count_where_le {ℓ} :
    {A : Type ℓ} (p q : A → Bool) (xs : List A)
    → ((y : A) → p y ≡ true → q y ≡ true)
    → count_where p xs ≤ count_where q xs
unfolding count_where
count_where_le p q [] narrow = omega arith
count_where_le p q (y ∷ ys) narrow =
    let ih = count_where_le p q ys narrow in ground (arith, ih, narrow y)

count_where-length {ℓ} : {A : Type ℓ} (p : A → Bool) (xs : List A) → count_where p xs ≤ length xs
unfolding count_where
count_where-length p [] = omega arith
count_where-length p (y ∷ ys) = let ih = count_where-length p ys in ground (arith, ih)

-- A wider condition that a row found satisfies, and the narrower does not, counts more.
count_where_wider {ℓ} :
    {A : Type ℓ} (p q r : A → Bool) (xs : List A) {x : A}
    → ((y : A) → p y ≡ true → q y ≡ true)
    → ((y : A) → r y ≡ true → (q y ≡ true) × (p y ≡ false))
    → first r xs ≡ some x
    → count_where p xs < count_where q xs
unfolding count_where first
count_where_wider p q r [] narrow new e = absurd (cc)
count_where_wider p q r (y ∷ ys) {x} narrow new e = elim (Bool-cases (r y)) [
  | inl hit ↦
      let le = count_where_le p q ys narrow in
      let (yes_q, no_p) = new y hit in rw (yes_q, no_p) (omega (arith, le))
  | inr miss ↦
      let ih = count_where_wider p q r ys {x = x} narrow new (ground (arith, e, miss)) in
      elim (Bool-cases (p y)) [
        | inl yes_p ↦ rw (yes_p, narrow y yes_p) (omega (arith, ih))
        | inr no_p ↦ rw no_p (ground (arith, ih))
      ]
]

-- A live folder that has been visited.
abbrev is_seen : List ℕ → Folder → Bool
is_seen visited folder = not folder.deleted && is_member visited folder.id

seen_more :
    (folders : List Folder) (visited : List ℕ) (current : ℕ) {folder : Folder}
    → first (is_live current) folders ≡ some folder
    → is_member visited current ≡ false
    → count_where (is_seen visited) folders < count_where (is_seen (current ∷ visited)) folders
seen_more folders visited current found fresh =
    count_where_wider (is_seen visited) (is_seen (current ∷ visited)) (is_live current) folders
      (λ f seen. unfold count_where in ground (arith, seen)) new found
  where
    new :
        (f : Folder)
        → is_live current f ≡ true
        → (is_seen (current ∷ visited) f ≡ true) × (is_seen visited f ≡ false)
    new f live =
        let same : current ≡ f.id = ground (arith, live) in
        let other : is_member visited f.id ≡ false =
          subst (λ (i : ℕ). is_member visited i ≡ false) same fresh in
        (unfold count_where in ground (arith, live), ground (arith, other))

-- With more rounds than live folders that have not been visited, the walk answers, and any further
-- round leaves the answer as it is.
climb_rounds :
    (folders : List Folder) (folder_id rounds more : ℕ) (visited : List ℕ) (current : ℕ)
    → length folders < rounds + count_where (is_seen visited) folders
    → rounds ≤ more
    → (answer : Reply Bool) × (climb folders folder_id rounds visited current ≡ some answer)
      × (climb folders folder_id more visited current ≡ some answer)
unfolding climb
climb_rounds folders folder_id zero more visited current enough le =
    absurd (omega (arith, enough, count_where-length (is_seen visited) folders))
climb_rounds folders folder_id (suc rounds) zero visited current enough le = absurd (omega arith)
climb_rounds folders folder_id (suc rounds) (suc more) visited current enough le =
    elim (Bool-cases (current == 0)) [
      | inl stop ↦ (accept false, rw (climb, stop) refl, rw (climb, stop) refl)
      | inr go ↦ elim (Bool-cases (is_member visited current)) [
        | inl again ↦ (refuse 500, rw (climb, go, again) refl, rw (climb, go, again) refl)
        | inr fresh ↦ elim (Option-cases (first (is_live current) folders)) [
          | inl missing ↦
              (refuse 500, rw (climb, go, fresh, missing) refl, rw (climb, go, fresh, missing) refl)
          | inr (folder, found) ↦ elim (Bool-cases (folder.parent_folder_id == folder_id)) [
            | inl hit ↦ (
              accept true,
              rw (climb, go, fresh, found, hit) refl,
              rw (climb, go, fresh, found, hit) refl,
            )
            | inr miss ↦
                let (answer, here, there) =
                  climb_rounds folders folder_id rounds more (current ∷ visited)
                    folder.parent_folder_id
                    (omega (arith, enough, seen_more folders visited current found fresh))
                    (omega arith) in
                (
                  answer,
                  rw (climb, go, fresh, found, miss) here,
                  rw (climb, go, fresh, found, miss) there,
                )
          ]
        ]
      ]
    ]

-- The walk of folderContainsFolder ends, whatever the parents are and though they may run in a cycle:
-- any number of rounds that is greater than the number of folders gives an answer, the one that
-- folder_contains_folder has.
pub folder_contains_folder-climb :
    (folders : List Folder) (folder_id searching_id rounds : ℕ)
    → length folders < rounds
    → climb folders folder_id rounds [] searching_id
      ≡ some (folder_contains_folder folders folder_id searching_id)
unfolding folder_contains_folder
folder_contains_folder-climb folders folder_id searching_id rounds enough =
    let (answer, here, there) =
      climb_rounds folders folder_id (suc (length folders)) rounds [] searching_id (omega arith)
        (omega arith) in
    rw (folder_contains_folder, here, there) refl
