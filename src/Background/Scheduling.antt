-- ===== src/Background/Scheduling.antt =====
-- Which task claim of background/runtime.go takes, and that a dispatch keeps to a queue's capacity.
use text.Mathlib.Text.{◌==◌ as str_eq}
use videocms.Base.{
  ℕ, zero, suc, ◌+◌, ◌-◌, ◌≤◌, ◌≡◌, refl, sym, subst, inl, inr, Bool, true, false, not, Option,
  none, some, String, List, [], ◌∷◌, arith, ◌==◌, count_where, select, All, Bool-cases,
}
use videocms.Background.Types.{Task, Attempt}
use videocms.Background.Text.{Library}
use videocms.Background.Database.{Db, Error, Outcome, ok, err, ok->>=, or_error}
use videocms.Background.Runtime.{Runtime, ActiveTask, active_count, capacity, available}
use videocms.Background.Claim.{
  is_eligible, score, goes_before, best_of, next_task, claim_task, claim, found, started_copy,
  launch, dispatch_rounds, dispatch_queue,
}

module _ (lib : Library) (now : ℕ) where
  goes_before-score :
      (a b : Task) → goes_before lib now a b ≡ true → score lib now b ≤ score lib now a
  unfolding goes_before
  goes_before-score a b h = ground arith

  not_before-score :
      (a b : Task) → goes_before lib now a b ≡ false → score lib now a ≤ score lib now b
  unfolding goes_before
  not_before-score a b h = ground arith

  best_of-ge :
      (best : Task) (tasks : List Task)
      → score lib now best ≤ score lib now (best_of lib now best tasks)
  unfolding best_of
  best_of-ge best [] = omega arith
  best_of-ge best (task ∷ tasks) = elim (Bool-cases (goes_before lib now task best)) [
    | inl first_ ↦
        rw (first_, best_of)
          (omega (arith, goes_before-score task best first_, best_of-ge task tasks))
    | inr later ↦ rw (later, best_of) (best_of-ge best tasks)
  ]

  best_of-max :
      (best : Task) (tasks : List Task)
      → All (λ t. score lib now t ≤ score lib now (best_of lib now best tasks)) tasks
  unfolding best_of
  best_of-max best [] = tt
  best_of-max best (task ∷ tasks) = elim (Bool-cases (goes_before lib now task best)) [
    | inl first_ ↦
        let step : best_of lib now best (task ∷ tasks) ≡ best_of lib now task tasks =
          rw (first_, best_of) refl in
        subst (λ b. All (λ t. score lib now t ≤ score lib now b) (task ∷ tasks)) (sym step)
          (best_of-ge task tasks, best_of-max task tasks)
    | inr later ↦
        let step : best_of lib now best (task ∷ tasks) ≡ best_of lib now best tasks =
          rw (later, best_of) refl in
        subst (λ b. All (λ t. score lib now t ≤ score lib now b) (task ∷ tasks)) (sym step)
          (
            omega (arith, not_before-score task best later, best_of-ge best tasks),
            best_of-max best tasks,
          )
  ]

  best_of-All {κ} :
      (P : Task → Type κ) (best : Task) (tasks : List Task)
      → P best
      → All P tasks
      → P (best_of lib now best tasks)
  unfolding best_of
  best_of-All P best [] h all = h
  best_of-All P best (task ∷ tasks) h all = elim (Bool-cases (goes_before lib now task best)) [
    | inl first_ ↦ rw first_ (best_of-All P task tasks all.0 all.1)
    | inr later ↦ rw later (best_of-All P best tasks h all.1)
  ]

  next_task-best {κ} :
      (P : Task → Type κ) (tasks : List Task) {task : Task}
      → All P tasks
      → next_task lib now tasks ≡ some task
      → P task × All (λ t. score lib now t ≤ score lib now task) tasks
  unfolding next_task
  next_task-best P [] all e = absurd (cc)
  next_task-best P (t ∷ tasks) {task} all e =
      let same : best_of lib now t tasks ≡ task = cc in
      subst (λ b. P b × All (λ u. score lib now u ≤ score lib now b) (t ∷ tasks)) same
        (best_of-All P t tasks all.0 all.1, (best_of-ge t tasks, best_of-max t tasks))

select-All {ℓ} : {A : Type ℓ} (q : A → Bool) (xs : List A) → All (λ x. q x ≡ true) (select q xs)
unfolding select
select-All q [] = tt
select-All q (x ∷ xs) = elim (Bool-cases (q x)) [
  | inl hit ↦ rw hit (hit, select-All q xs)
  | inr miss ↦ rw miss (select-All q xs)
]

All-of-select {ℓ κ} :
    {A : Type ℓ} (P : A → Type κ) (q : A → Bool) (xs : List A)
    → All P (select q xs)
    → All (λ x. q x ≡ true → P x) xs
unfolding select
All-of-select P q [] h = tt
All-of-select P q (x ∷ xs) h = elim (Bool-cases (q x)) [
  | inl hit ↦ let h' = rw hit at h in (λ _. h'.0, All-of-select P q xs h'.1)
  | inr miss ↦ (λ e. absurd (ground arith), All-of-select P q xs (rw miss at h))
]

module _ (lib : Library) (worker : String) (attempt_id now : ℕ) (queue : String) (db : Db)
    {started : Task} {attempt : Attempt} {db' : Db} where
  found-ok :
      (m : Outcome (Task × Attempt × Db))
      → found m ≡ ok (some (started, attempt, db'))
      → m ≡ ok (started, attempt, db')
  found-ok (ok a) e = ground arith
  found-ok (err Error.not_found) e = absurd (ground arith)
  found-ok (err _) e = absurd (ground arith)

  -- What claim takes is a task of the queue that is waiting and due and whose job is neither paused
  -- nor canceled, and no such task has a higher score. The worker gets it as running.
  pub claim-best :
      claim lib worker attempt_id now queue db ≡ ok (some (started, attempt, db'))
      → (task : Task) × (started ≡ started_copy now task)
        × (is_eligible queue now db task ≡ true)
        × All
            (λ t. is_eligible queue now db t ≡ true → score lib now t ≤ score lib now task)
            db.tasks
  unfolding claim
  claim-best e =
      let ready = select (is_eligible queue now db) db.tasks in
      let (task, chosen, e₁) =
        ok->>= (or_error (next_task lib now ready) Error.not_found)
          (λ (t : Task). claim_task lib worker attempt_id now t db) (found-ok _ e) in
      let next : next_task lib now ready ≡ some task = ground arith in
      let (fits, best) =
        next_task-best lib now (λ t. is_eligible queue now db t ≡ true) ready
          (select-All (is_eligible queue now db) db.tasks) next in
      (
        task,
        copy task e₁,
        fits,
        All-of-select (λ t. score lib now t ≤ score lib now task) (is_eligible queue now db)
            db.tasks best,
      )
    where
      copy :
          (task : Task)
          → claim_task lib worker attempt_id now task db ≡ ok (started, attempt, db')
          → started ≡ started_copy now task
      copy task e = unfold claim_task in ground arith

-- Removing entries does not raise a count.
count_where-select_le {ℓ} :
    {A : Type ℓ} (p q : A → Bool) (xs : List A) → count_where p (select q xs) ≤ count_where p xs
unfolding count_where select
count_where-select_le p q [] = omega arith
count_where-select_le p q (x ∷ xs) = ground (arith, count_where-select_le p q xs)

active_count-launch :
    (queue : String) (task : Task) (r : Runtime)
    → active_count queue (launch task r) ≤ active_count queue r + 1
unfolding active_count launch count_where
active_count-launch queue task r = ground (
  arith,
  count_where-select_le (λ (a : ActiveTask). str_eq a.queue queue)
      (λ (a : ActiveTask). not (a.task_id == task.id)) r.active,
)

dispatch_rounds-active :
    (lib : Library) (worker : String) (uuid : ℕ → ℕ) (now : ℕ) (queue : String) (rounds : ℕ)
    (r : Runtime)
    → active_count queue (dispatch_rounds lib worker uuid now queue rounds r).0
      ≤ active_count queue r + rounds
unfolding dispatch_rounds active_count
dispatch_rounds-active lib worker uuid now queue zero r = omega arith
dispatch_rounds-active lib worker uuid now queue (suc rounds) r =
    go (dispatch_rounds-active lib worker uuid now queue rounds)
      (claim lib worker (uuid rounds) now queue r.db) refl
  where
    go :
        ((r' : Runtime)
          → active_count queue (dispatch_rounds lib worker uuid now queue rounds r').0
            ≤ active_count queue r' + rounds)
        → (m : Outcome (Option (Task × Attempt × Db)))
        → claim lib worker (uuid rounds) now queue r.db ≡ m
        → active_count queue (dispatch_rounds lib worker uuid now queue (suc rounds) r).0
          ≤ active_count queue r + suc rounds
    go ih (err x) e = rw (e, dispatch_rounds) (omega arith)
    go ih (ok none) e = rw (e, dispatch_rounds) (omega arith)
    go ih (ok (some (task, attempt, db))) e =
        let r' : Runtime = launch task (record r { db = db }) in
        let step : active_count queue r' ≤ active_count queue r + 1 =
          active_count-launch queue task (record r { db = db }) in
        rw (e, dispatch_rounds) (omega (arith, ih r', step))

-- A dispatch never takes a queue beyond its capacity: from a queue within it, the workers that are
-- active afterwards are within it too.
pub dispatch_queue-capacity :
    (lib : Library) (worker : String) (uuid : ℕ → ℕ) (configured : Option (String → ℕ)) (now : ℕ)
    (queue : String) (r : Runtime)
    → active_count queue r ≤ capacity configured queue
    → active_count queue (dispatch_queue lib worker uuid configured now queue r).0
      ≤ capacity configured queue
unfolding dispatch_queue available
dispatch_queue-capacity lib worker uuid configured now queue r h = ground (
  arith,
  dispatch_rounds-active lib worker uuid now queue
      (capacity configured queue - active_count queue r) r,
)
