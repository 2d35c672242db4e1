-- ===== src/Base/Laws.antt =====
-- Laws of the queries of Base/Rows.antt.
use Prim.Native.Nat.{ℕ, ◌+◌, ◌≤◌}
use mathlib.Core.Path.{◌≡◌, refl}
use mathlib.Core.Bool.{Bool, true, false}
use mathlib.Core.Option.{none, some}
use mathlib.Core.Logic.{inl, inr}
use mathlib.Core.List.{List, [], ◌∷◌, ◌++◌}
use native.Mathlib.Omega.{arith}
use videocms.Base.Tests.{if◌then◌else◌, Bool-cases}
use videocms.Base.Rows.{select, first, update_where, count_where, sum_of, All}

module _ {ℓ} {A : Type ℓ} where
  -- An update of rows that a query does not see, before and after, does not change its answer.
  pub select-update_where :
      (q p : A → Bool) (f : A → A) (xs : List A)
      → All (λ x. p x ≡ true → (q x ≡ false) × (q (f x) ≡ false)) xs
      → select q (update_where p f xs) ≡ select q xs
  unfolding select update_where
  select-update_where q p f [] off = refl
  select-update_where q p f (x ∷ xs) off = elim (Bool-cases (p x)) [
    | inl hit ↦ rw hit (rw ((off.0 hit).0, (off.0 hit).1) (select-update_where q p f xs off.1))
    | inr miss ↦ rw (miss, select-update_where q p f xs off.1)
  ]

  pub All-intro {κ} : {P : A → Type κ} → ((x : A) → P x) → (xs : List A) → All P xs
  All-intro f [] = tt
  All-intro f (x ∷ xs) = (f x, All-intro f xs)

  pub select-append :
      (q : A → Bool) (xs ys : List A) → select q (xs ++ ys) ≡ select q xs ++ select q ys
  unfolding select
  select-append q [] ys = refl
  select-append q (x ∷ xs) ys = elim (Bool-cases (q x)) [
    | inl hit ↦ rw (hit, select-append q xs ys)
    | inr miss ↦ rw (miss, select-append q xs ys)
  ]

  pub All-update_where {κ μ} :
      {P : A → Type κ} {Q : A → Type μ} (p : A → Bool) (f : A → A)
      → ((x : A) → P x → p x ≡ true → Q (f x))
      → ((x : A) → P x → p x ≡ false → Q x)
      → (xs : List A) → All P xs
      → All Q (update_where p f xs)
  unfolding update_where
  All-update_where p f hit miss [] h = tt
  All-update_where p f hit miss (x ∷ xs) h = elim (Bool-cases (p x)) [
    | inl e ↦ rw e (hit x h.0 e, All-update_where p f hit miss xs h.1)
    | inr e ↦ rw e (miss x h.0 e, All-update_where p f hit miss xs h.1)
  ]

  pub All-map {κ μ} :
      {P : A → Type κ} {Q : A → Type μ}
      → ((x : A) → P x → Q x)
      → (xs : List A) → All P xs
      → All Q xs
  All-map f [] h = tt
  All-map f (x ∷ xs) h = (f x h.0, All-map f xs h.1)

  pub All-both {κ μ ν} :
      {P : A → Type κ} {Q : A → Type μ} {R : A → Type ν}
      → ((x : A) → P x → Q x → R x)
      → (xs : List A) → All P xs
      → All Q xs
      → All R xs
  All-both f [] h k = tt
  All-both f (x ∷ xs) h k = (f x h.0 k.0, All-both f xs h.1 k.1)

  pub All-append {κ} : (P : A → Type κ) (xs ys : List A) → All P xs → All P ys → All P (xs ++ ys)
  All-append P [] ys h k = k
  All-append P (x ∷ xs) ys h k = (h.0, All-append P xs ys h.1 k)

  pub All-select {κ} :
      (P : A → Type κ) (q : A → Bool) (xs : List A) → All P xs → All P (select q xs)
  unfolding select
  All-select P q [] h = tt
  All-select P q (x ∷ xs) h = elim (Bool-cases (q x)) [
    | inl e ↦ rw e (h.0, All-select P q xs h.1)
    | inr e ↦ rw e (All-select P q xs h.1)
  ]

  pub All-first {κ} :
      (P : A → Type κ) (q : A → Bool) (xs : List A) {x : A} → All P xs → first q xs ≡ some x → P x
  unfolding first
  All-first P q [] h e = absurd (cc)
  All-first P q (y ∷ xs) {x} h e = elim (Bool-cases (q y)) [
    | inl hit ↦ let same : y ≡ x = ground arith in rw (← same) h.0
    | inr miss ↦ All-first P q xs h.1 (ground arith)
  ]

  -- The row found satisfies the condition.
  pub first-hit : (q : A → Bool) (xs : List A) {x : A} → first q xs ≡ some x → q x ≡ true
  unfolding first
  first-hit q [] e = absurd (cc)
  first-hit q (y ∷ xs) {x} e = elim (Bool-cases (q y)) [
    | inl hit ↦ let same : y ≡ x = ground arith in rw (← same) hit
    | inr miss ↦ first-hit q xs (ground arith)
  ]

  -- An update that keeps the condition updates the row found.
  pub first-update_where :
      (q p : A → Bool) (f : A → A)
      → ((x : A) → q (f x) ≡ q x)
      → (xs : List A) {x : A} → first q xs ≡ some x
      → first q (update_where p f xs) ≡ some (if p x then f x else x)
  unfolding first update_where
  first-update_where q p f keep [] e = absurd (cc)
  first-update_where q p f keep (y ∷ xs) {x} e = elim (Bool-cases (q y)) [
    | inl hit ↦
        let same : y ≡ x = ground arith in
        elim (Bool-cases (p y)) [ inl yes_p ↦ ground (arith, keep y) | inr no_p ↦ ground arith ]
    | inr miss ↦
        let ih = first-update_where q p f keep xs {x = x} (ground arith) in
        elim (Bool-cases (p y)) [
          | inl yes_p ↦ ground (arith, keep y, ih)
          | inr no_p ↦ ground (arith, ih)
        ]
  ]

  -- Rows added at the end do not change the first one found.
  pub first-append :
      (q : A → Bool) (xs ys : List A) {x : A} → first q xs ≡ some x → first q (xs ++ ys) ≡ some x
  unfolding first
  first-append q [] ys e = absurd (cc)
  first-append q (y ∷ xs) ys {x} e = elim (Bool-cases (q y)) [
    | inl hit ↦ ground arith
    | inr miss ↦ rw miss (first-append q xs ys {x = x} (ground arith))
  ]

-- A query that no row satisfies, and one that every row does.
pub select_none {ℓ} :
    {A : Type ℓ} (p : A → Bool) (xs : List A) → All (λ x. p x ≡ false) xs → select p xs ≡ []
unfolding select
select_none p [] h = refl
select_none p (x ∷ xs) h = rw (h.0, select_none p xs h.1)

pub select-All {ℓ} :
    {A : Type ℓ} (p : A → Bool) (xs : List A) → All (λ x. p x ≡ true) xs → select p xs ≡ xs
unfolding select
select-All p [] h = refl
select-All p (x ∷ xs) h = rw (h.0, select-All p xs h.1)

-- Where no earlier row fits, the later ones decide.
pub first-append_miss {ℓ} :
    {A : Type ℓ} (q : A → Bool) (xs ys : List A)
    → first q xs ≡ none
    → first q (xs ++ ys) ≡ first q ys
unfolding first
first-append_miss q [] ys e = refl
first-append_miss q (x ∷ xs) ys e = elim (Bool-cases (q x)) [
  | inl hit ↦ absurd (ground arith)
  | inr miss ↦ rw miss (first-append_miss q xs ys (ground arith))
]

-- A count of 0.
pub count_none {ℓ} :
    {A : Type ℓ} (p : A → Bool) (xs : List A) → All (λ x. p x ≡ false) xs → count_where p xs ≡ 0
unfolding count_where
count_none p [] h = refl
count_none p (x ∷ xs) h = rw (h.0, count_none p xs h.1)

-- A sum over the rows selected, as one over all rows.
pub sum_of-select {ℓ} :
    {A : Type ℓ} (f : A → ℕ) (p : A → Bool) (xs : List A)
    → sum_of f (select p xs) ≡ sum_of (λ x. if p x then f x else 0) xs
unfolding sum_of select
sum_of-select f p [] = refl
sum_of-select f p (x ∷ xs) = ground (arith, sum_of-select f p xs)

pub sum_of-append {ℓ} :
    {A : Type ℓ} (f : A → ℕ) (xs ys : List A) → sum_of f (xs ++ ys) ≡ sum_of f xs + sum_of f ys
unfolding sum_of
sum_of-append f [] ys = omega arith
sum_of-append f (x ∷ xs) ys = omega (arith, sum_of-append f xs ys)

-- An update that lowers what each row counts lowers the sum.
pub sum_of-update_where {ℓ κ} :
    {A : Type ℓ} (P : A → Type κ) (w : A → ℕ) (p : A → Bool) (f : A → A)
    → ((x : A) → P x → p x ≡ true → w (f x) ≤ w x)
    → (xs : List A) → All P xs
    → sum_of w (update_where p f xs) ≤ sum_of w xs
unfolding sum_of update_where
sum_of-update_where P w p f lower [] h = omega arith
sum_of-update_where P w p f lower (x ∷ xs) h = elim (Bool-cases (p x)) [
  | inl hit ↦ rw hit (omega (arith, lower x h.0 hit, sum_of-update_where P w p f lower xs h.1))
  | inr miss ↦ rw miss (omega (arith, sum_of-update_where P w p f lower xs h.1))
]

-- The first row of a condition is the first of a narrower one that it satisfies.
pub first_narrow {ℓ} :
    {A : Type ℓ} (q r : A → Bool) (xs : List A) {x : A}
    → ((y : A) → r y ≡ true → q y ≡ true)
    → first q xs ≡ some x
    → r x ≡ true
    → first r xs ≡ some x
unfolding first
first_narrow q r [] narrow e h = absurd (cc)
first_narrow q r (y ∷ ys) {x} narrow e h = elim (Bool-cases (q y)) [
  | inl hit ↦ let same : y ≡ x = ground arith in rw (same, h) refl
  | inr miss ↦ elim (Bool-cases (r y)) [
    | inl yes_r ↦ absurd (ground (arith, miss, narrow y yes_r))
    | inr no_r ↦ rw no_r (first_narrow q r ys {x = x} narrow (ground arith) h)
  ]
]
