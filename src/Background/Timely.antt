-- ===== src/Background/Timely.antt =====
-- A pass of runDueSchedules (background/runtime.go) leaves nothing due, so that a second pass at the
-- same time starts nothing.
use videocms.Base.{
  ℕ, ◌<◌, ◌≡◌, refl, ◌∙◌, inl, inr, Bool, false, none, String, List, [], ◌∷◌, arith, ◌==◌,
  count_where, first, update_where, All, All-update_where, Bool-cases, Option-cases,
}
use videocms.Background.Types.{Job}
use videocms.Background.Text.{Library, bounded_message}
use videocms.Background.Database.{Db, Outcome, ok, err}
use videocms.Background.Claim.{is_due}
use videocms.Background.Enqueue.{enqueue}
use videocms.Background.Schedules.{
  ScheduleState, ScheduleDefinition, Scheduled, Outside, of_key, is_due_schedule, claim_schedule,
  due_spec, enqueue_due, record_failure, record_job, run_due, run_due_schedules,
}

first-none-All {ℓ} :
    {A : Type ℓ} (q : A → Bool) (xs : List A) → first q xs ≡ none → All (λ x. q x ≡ false) xs
unfolding first
first-none-All q [] e = tt
first-none-All q (x ∷ xs) e = elim (Bool-cases (q x)) [
  | inl hit ↦ absurd (ground arith)
  | inr miss ↦ (miss, first-none-All q xs (ground arith))
]

All-first-none {ℓ} :
    {A : Type ℓ} (q : A → Bool) (xs : List A) → All (λ x. q x ≡ false) xs → first q xs ≡ none
unfolding first
All-first-none q [] h = refl
All-first-none q (x ∷ xs) h = rw (h.0, All-first-none q xs h.1)

-- No schedule of the key is due.
abbrev pub IsQuiet : ℕ → String → List ScheduleState → Type 0
IsQuiet now key states = All (λ state. is_due_schedule now key state ≡ false) states

module _ (now : ℕ) (key : String) where
  -- An edit that leaves alone what a schedule waits for.
  IsQuiet-update_where :
      (p : ScheduleState → Bool) (f : ScheduleState → ScheduleState)
      → ((state : ScheduleState)
          → is_due_schedule now key (f state) ≡ is_due_schedule now key state)
      → (states : List ScheduleState) → IsQuiet now key states
      → IsQuiet now key (update_where p f states)
  IsQuiet-update_where p f keep states h =
      All-update_where {P = λ state. is_due_schedule now key state ≡ false}
        {Q = λ state. is_due_schedule now key state ≡ false} p f (λ state q _. keep state ∙ q)
        (λ state q _. q) states h

  -- A claimed schedule is not due, whichever key is asked for.
  claim_schedule-late :
      (interval : ℕ) (state : ScheduleState)
      → 0 < interval
      → is_due_schedule now key (claim_schedule now interval state) ≡ false
  unfolding is_due_schedule claim_schedule is_due of_key
  claim_schedule-late interval state h = ground arith

  claimed-IsQuiet :
      (other : String) (interval : ℕ) (states : List ScheduleState)
      → 0 < interval
      → IsQuiet now key states
      → IsQuiet now key
          (update_where (is_due_schedule now other) (claim_schedule now interval) states)
  claimed-IsQuiet other interval states h quiet =
      All-update_where {P = λ state. is_due_schedule now key state ≡ false}
        {Q = λ state. is_due_schedule now key state ≡ false} (is_due_schedule now other)
        (claim_schedule now interval) (λ state q _. claim_schedule-late interval state h)
        (λ state q _. q) states quiet

  -- The schedules of the key that were due are claimed.
  own_claimed-IsQuiet :
      (interval : ℕ) (states : List ScheduleState)
      → 0 < interval
      → IsQuiet now key
          (update_where (is_due_schedule now key) (claim_schedule now interval) states)
  unfolding update_where
  own_claimed-IsQuiet interval [] h = tt
  own_claimed-IsQuiet interval (state ∷ states) h =
      elim (Bool-cases (is_due_schedule now key state)) [
        | inl due ↦
            rw due (claim_schedule-late interval state h, own_claimed-IsQuiet interval states h)
        | inr late ↦ rw late (late, own_claimed-IsQuiet interval states h)
      ]

  enqueue_due-IsQuiet :
      (lib : Library) (outside : Outside) (definition : ScheduleDefinition) (s : Scheduled)
      → IsQuiet now key s.states
      → IsQuiet now key (enqueue_due lib outside now definition s).states
  unfolding enqueue_due
  enqueue_due-IsQuiet lib outside definition s h =
      ended
        (enqueue lib now (outside.job_id definition.key) (outside.task_id definition.key)
          (due_spec outside now definition) s.db)
        refl
    where
      ended :
          (o : Outcome (Job × Bool × Db))
          → enqueue lib now
              (outside.job_id definition.key)
              (outside.task_id definition.key)
              (due_spec outside now definition)
              s.db
            ≡ o
          → IsQuiet now key (enqueue_due lib outside now definition s).states
      ended (err e) r =
          rw (enqueue_due, r)
            (IsQuiet-update_where (of_key definition.key)
              (record_failure (bounded_message lib (outside.error_text e) 512))
              (λ state. unfold is_due_schedule record_failure of_key in refl) s.states h)
      ended (ok (job, reused, db)) r =
          rw (enqueue_due, r)
            (IsQuiet-update_where (of_key definition.key) (record_job job)
              (λ state. unfold is_due_schedule record_job of_key in refl) s.states h)

  -- What a turn of the loop comes to: nothing is due, or the schedule is claimed.
  run_due-cases :
      (lib : Library) (outside : Outside) (definition : ScheduleDefinition) (s : Scheduled)
      → (claimed : Scheduled → Type 0)
      → ((s' : Scheduled) → claimed s' → claimed (enqueue_due lib outside now definition s'))
      → claimed (record s {
        states =
            update_where
              (is_due_schedule now definition.key)
              (claim_schedule now definition.interval)
              s.states;
      })
      → (first (is_due_schedule now definition.key) s.states ≡ none → claimed s)
      → claimed (run_due lib outside now definition s)
  unfolding run_due
  run_due-cases lib outside definition s claimed goes_on start idle =
      elim (Option-cases (first (is_due_schedule now definition.key) s.states)) [
        | inl missing ↦ rw (run_due, missing) (idle missing)
        | inr (_, found) ↦
            elim (Bool-cases (count_where (is_due_schedule now definition.key) s.states == 1)) [
              | inl one ↦ rw (run_due, found, one) (goes_on _ start)
              | inr other ↦ rw (run_due, found, other) start
            ]
      ]

  run_due-IsQuiet :
      (lib : Library) (outside : Outside) (definition : ScheduleDefinition) (s : Scheduled)
      → 0 < definition.interval
      → IsQuiet now key s.states
      → IsQuiet now key (run_due lib outside now definition s).states
  run_due-IsQuiet lib outside definition s h quiet =
      run_due-cases lib outside definition s (λ s'. IsQuiet now key s'.states)
        (enqueue_due-IsQuiet lib outside definition)
        (claimed-IsQuiet definition.key definition.interval s.states h quiet) (λ _. quiet)

idle_pass :
    (lib : Library) (outside : Outside) (now : ℕ) (definitions : List ScheduleDefinition)
    (s : Scheduled)
    → All (λ d. IsQuiet now d.key s.states) definitions
    → run_due_schedules lib outside now definitions s ≡ s
unfolding run_due_schedules
idle_pass lib outside now [] s h = refl
idle_pass lib outside now (d ∷ definitions) s h =
    let same : run_due lib outside now d s ≡ s =
      rw (run_due, All-first-none (is_due_schedule now d.key) s.states h.0) refl in
    rw same (idle_pass lib outside now definitions s h.1)

module _ (lib : Library) (outside : Outside) (now : ℕ) where
  own_run-IsQuiet :
      (definition : ScheduleDefinition) (s : Scheduled)
      → 0 < definition.interval
      → IsQuiet now definition.key (run_due lib outside now definition s).states
  own_run-IsQuiet definition s h =
      run_due-cases now definition.key lib outside definition s
        (λ s'. IsQuiet now definition.key s'.states)
        (enqueue_due-IsQuiet now definition.key lib outside definition)
        (own_claimed-IsQuiet now definition.key definition.interval s.states h)
        (first-none-All (is_due_schedule now definition.key) s.states)

  pass-IsQuiet :
      (key : String) (definitions : List ScheduleDefinition) (s : Scheduled)
      → All (λ d. 0 < d.interval) definitions
      → IsQuiet now key s.states
      → IsQuiet now key (run_due_schedules lib outside now definitions s).states
  unfolding run_due_schedules
  pass-IsQuiet key [] s h quiet = quiet
  pass-IsQuiet key (d ∷ definitions) s h quiet =
      pass-IsQuiet key definitions (run_due lib outside now d s) h.1
        (run_due-IsQuiet now key lib outside d s h.0 quiet)

  -- After a pass no schedule of a definition is due.
  run_due_schedules-IsQuiet :
      (definitions : List ScheduleDefinition) (s : Scheduled)
      → All (λ d. 0 < d.interval) definitions
      → All
          (λ d. IsQuiet now d.key (run_due_schedules lib outside now definitions s).states)
          definitions
  unfolding run_due_schedules
  run_due_schedules-IsQuiet [] s h = tt
  run_due_schedules-IsQuiet (d ∷ definitions) s h = (
    pass-IsQuiet d.key definitions (run_due lib outside now d s) h.1 (own_run-IsQuiet d s h.0),
    run_due_schedules-IsQuiet definitions (run_due lib outside now d s) h.1,
  )

  -- If the interval of each definition is positive, then after a pass no schedule of a definition
  -- is due, and a second pass at the same time, even after other keys and identifiers have been
  -- made, changes nothing: no job is enqueued twice.
  pub run_due_schedules-again :
      (definitions : List ScheduleDefinition) (s : Scheduled)
      → All (λ d. 0 < d.interval) definitions
      → let s' = run_due_schedules lib outside now definitions s in
        All (λ d. IsQuiet now d.key s'.states) definitions
        × ((outside' : Outside) → run_due_schedules lib outside' now definitions s' ≡ s')
  run_due_schedules-again definitions s h =
      let quiet = run_due_schedules-IsQuiet definitions s h in
      (quiet, λ outside'. idle_pass lib outside' now definitions _ quiet)
