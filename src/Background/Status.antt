-- ===== src/Background/Status.antt =====
-- What the reduction of a job's tasks (recomputeJob of background/runtime.go) says: when the job is
-- finished, when it has succeeded, and the range of its progress.
use native.Mathlib.Nat.{div-lt_iff_lt-mul}
use videocms.Base.{
  ℤ, pos, negsuc, ℕ, suc, ◌+◌, ◌*◌, ◌/◌, ◌≤◌, ◌<◌, ◌≡◌, refl, sym, ap, subst, ◌∙◌, inl, inr, ◌↔◌,
  Bool, true, false, Option, List, [], ◌∷◌, arith, if◌then◌else◌, is_some, All, Bool-cases, sum_of,
  int64_limit, add64, div64, add64_small, mul64_small, div64_small,
}
use videocms.Background.Types.{
  Job, JobStatus, Task, TaskStatus, terminal_job_status, terminal_task_status,
}
use videocms.Background.Text.{Library}
use videocms.Background.Reduce.{
  Tally, no_tasks, count_task, count_status, tally_from, is_terminal, effective_weight,
  effective_progress, clamp_progress, reduced_status, reduced_progress, save_tally, reduce_job,
}

-- How many tasks are not finished, by the tally.
abbrev open_tasks : Tally → ℕ
open_tasks n = n.running + n.waiting + n.queued

count_task-open :
    (n : Tally) (task : Task) (status : TaskStatus)
    → task.status ≡ status
    → open_tasks (count_task n task)
      ≡ (if terminal_task_status status then open_tasks n else suc (open_tasks n))
unfolding count_task terminal_task_status
count_task-open n task TaskStatus.queued e = rw (e, count_status) (omega arith)
count_task-open n task TaskStatus.running e = rw (e, count_status) (omega arith)
count_task-open n task TaskStatus.retry_wait e = rw (e, count_status) (omega arith)
count_task-open n task TaskStatus.cancel_requested e = rw (e, count_status) (omega arith)
count_task-open n task TaskStatus.succeeded e = rw (e, count_status) refl
count_task-open n task TaskStatus.failed e = ground arith
count_task-open n task TaskStatus.canceled e = ground arith

open_le-tally_from :
    (n : Tally) (tasks : List Task) → open_tasks n ≤ open_tasks (tally_from n tasks)
unfolding tally_from
open_le-tally_from n [] = omega arith
open_le-tally_from n (task ∷ tasks) =
    ground
      (arith, count_task-open n task task.status refl, open_le-tally_from (count_task n task) tasks)

-- The tally stays at nothing open exactly if all tasks are finished.
tally_from-open :
    (n : Tally) (tasks : List Task)
    → open_tasks n ≡ 0
    → (open_tasks (tally_from n tasks) ≡ 0)
      ↔ All (λ task. terminal_task_status task.status ≡ true) tasks
unfolding tally_from
tally_from-open n [] h = (λ _. tt, λ _. h)
tally_from-open n (task ∷ tasks) h = elim (Bool-cases (terminal_task_status task.status)) [
  | inl done ↦
      let same : open_tasks (count_task n task) ≡ 0 =
        ground (arith, count_task-open n task task.status refl) in
      let rest = tally_from-open (count_task n task) tasks same in
      (λ e. (done, rest.0 e), λ all. rest.1 all.1)
  | inr busy ↦ (
    λ e. absurd (
        ground (
          arith,
          count_task-open n task task.status refl,
          open_le-tally_from (count_task n task) tasks,
        )),
    λ all. absurd (ground arith),
  )
]

is_terminal_iff : (n : Tally) → (is_terminal n ≡ true) ↔ (open_tasks n ≡ 0)
unfolding is_terminal
is_terminal_iff n = (λ h. ground arith, λ h. ground arith)

reduced_status-terminal :
    (cancel pause : Option ℕ) (n : Tally)
    → terminal_job_status (reduced_status cancel pause n) ≡ is_terminal n
unfolding reduced_status terminal_job_status is_terminal
reduced_status-terminal cancel pause n = ground arith

-- A job with tasks is in a final status exactly if each of its tasks is.
pub reduce_job_finished :
    (lib : Library) (now : ℕ) (task : Task) (tasks : List Task) (job : Job)
    → (terminal_job_status (reduce_job lib now (task ∷ tasks) job).status ≡ true)
      ↔ All (λ t. terminal_task_status t.status ≡ true) (task ∷ tasks)
unfolding reduce_job save_tally
reduce_job_finished lib now task tasks job =
    let n = tally_from no_tasks (task ∷ tasks) in
    let status = reduced_status-terminal job.cancel_requested_at job.pause_requested_at n in
    let start : open_tasks no_tasks ≡ 0 = unfold no_tasks in refl in
    let all = tally_from-open no_tasks (task ∷ tasks) start in
    (
      λ e. all.0 ((is_terminal_iff n).0 (sym status ∙ e)),
      λ a. status ∙ (is_terminal_iff n).1 (all.1 a),
    )

count_status-weights :
    (status : TaskStatus) (task : Task) (n : Tally)
    → let n' = count_status status task n in
      (n'.total_weight ≡ n.total_weight) × (n'.completed_weight ≡ n.completed_weight)
unfolding count_status
count_status-weights TaskStatus.queued task n = (refl, refl)
count_status-weights TaskStatus.failed task n = (ground arith, ground arith)
count_status-weights TaskStatus.canceled task n = (ground arith, ground arith)
count_status-weights _ task n = (refl, refl)

effective_progress-le :
    (status : TaskStatus) (progress : ℤ) → effective_progress status progress ≤ 10000
unfolding effective_progress clamp_progress
effective_progress-le TaskStatus.succeeded progress = omega arith
effective_progress-le _ (negsuc n) = omega arith
effective_progress-le _ (pos n) = ground arith

-- The total is 10000 times the weight, and bounds what is completed.
record IsWeighed (n : Tally) (weight : ℕ) : Type 0 where
  total : n.total_weight ≡ 10000 * weight
  bounded : n.completed_weight ≤ 10000 * weight

-- What the tasks weigh together.
abbrev pub weight_of : List Task → ℕ
weight_of = sum_of (λ (t : Task). effective_weight t.weight)

product-le : (w p : ℕ) → p ≤ 10000 → w * p ≤ 10000 * w
product-le w p h = grind arith

count_task-IsWeighed :
    (n : Tally) (task : Task) (weight : ℕ)
    → 10000 * (weight + effective_weight task.weight) < int64_limit
    → IsWeighed n weight
    → IsWeighed (count_task n task) (weight + effective_weight task.weight)
unfolding count_task
count_task-IsWeighed n task weight small h =
    let w = effective_weight task.weight in
    let p = effective_progress task.status task.progress in
    let le = product-le w p (effective_progress-le task.status task.progress) in
    let total = mul64_small w 10000 (omega (arith, small)) in
    let part = mul64_small w p (omega (arith, small, le)) in
    let total' = add64_small n.total_weight (w * 10000) (omega (arith, small, h.total)) in
    let part' = add64_small n.completed_weight (w * p) (omega (arith, small, le, h.bounded)) in
    let (same, same') = count_status-weights task.status task _ in
    record {
      total = same ∙ (rw total (omega (arith, total', h.total)));
      bounded =
          subst (λ (x : ℕ). x ≤ 10000 * (weight + w))
            (sym (same' ∙ ap (λ (x : ℕ). add64 n.completed_weight x) part ∙ part'))
            (omega (arith, h.bounded, le));
    }

tally_from-IsWeighed :
    (n : Tally) (tasks : List Task) (weight : ℕ)
    → 10000 * (weight + weight_of tasks) < int64_limit
    → IsWeighed n weight
    → IsWeighed (tally_from n tasks) (weight + weight_of tasks)
unfolding tally_from sum_of
tally_from-IsWeighed n [] weight small h = record {
  total = omega (arith, h.total);
  bounded = omega (arith, h.bounded);
}
tally_from-IsWeighed n (task ∷ tasks) weight small h =
    let w = effective_weight task.weight in
    let h' =
      tally_from-IsWeighed (count_task n task) tasks (weight + w) (omega (arith, small))
        (count_task-IsWeighed n task weight (omega (arith, small)) h) in
    record { total = omega (arith, h'.total); bounded = omega (arith, h'.bounded) }

no_tasks-IsWeighed : IsWeighed no_tasks 0
unfolding no_tasks
no_tasks-IsWeighed = record { total = refl; bounded = omega arith }

div-le_of_le : (c w : ℕ) → 0 < w → c ≤ 10000 * w → c / w ≤ 10000
div-le_of_le c w p h =
    let below : c / w < 10001 = (div-lt_iff_lt-mul {k = w} p).1 (omega arith) in omega arith

reduced_progress-le :
    (status : JobStatus) (n : Tally) (weight : ℕ)
    → 0 < weight
    → 10000 * weight < int64_limit
    → IsWeighed n weight
    → reduced_progress status n ≤ 10000
unfolding reduced_progress
reduced_progress-le status n weight positive small h =
    let divisor : div64 n.total_weight 10000 ≡ weight =
      div64_small n.total_weight 10000 (omega (arith, h.total, small)) ∙ omega (arith, h.total) in
    let quotient : div64 n.completed_weight (div64 n.total_weight 10000) ≤ 10000 = rw divisor (
      rw (div64_small n.completed_weight weight (omega (arith, h.bounded, small)))
        (div-le_of_le n.completed_weight weight positive h.bounded)) in
    ground (arith, quotient)

-- If 10000 times what the tasks weigh together fits an int64, then the job's progress does not pass
-- 10000, whatever progress the tasks report.
pub reduce_job-progress_le :
    (lib : Library) (now : ℕ) (task : Task) (tasks : List Task) (job : Job)
    → 10000 * weight_of (task ∷ tasks) < int64_limit
    → (reduce_job lib now (task ∷ tasks) job).progress ≤ 10000
unfolding reduce_job save_tally
reduce_job-progress_le lib now task tasks job small =
    let h =
      tally_from-IsWeighed no_tasks (task ∷ tasks) 0 (omega (arith, small)) no_tasks-IsWeighed in
    reduced_progress-le _ (tally_from no_tasks (task ∷ tasks)) (0 + weight_of (task ∷ tasks))
      (unfold sum_of effective_weight in ground arith) (omega (arith, small)) h

-- What counts against a full success.
abbrev unsuccessful : Tally → ℕ
unsuccessful n =
    open_tasks n + n.failed_required + n.failed_optional + n.canceled_required + n.canceled_optional

abbrev pub is_succeeded : TaskStatus → Bool
is_succeeded TaskStatus.succeeded = true
is_succeeded _ = false

count_task-unsuccessful :
    (n : Tally) (task : Task) (status : TaskStatus)
    → task.status ≡ status
    → unsuccessful (count_task n task)
      ≡ (if is_succeeded status then unsuccessful n else suc (unsuccessful n))
unfolding count_task
count_task-unsuccessful n task TaskStatus.queued e = rw (e, count_status) (omega arith)
count_task-unsuccessful n task TaskStatus.running e = rw (e, count_status) (omega arith)
count_task-unsuccessful n task TaskStatus.retry_wait e = rw (e, count_status) (omega arith)
count_task-unsuccessful n task TaskStatus.cancel_requested e = rw (e, count_status) (omega arith)
count_task-unsuccessful n task TaskStatus.succeeded e = rw (e, count_status) refl
count_task-unsuccessful n task TaskStatus.failed e = rw (e, count_status) (ground arith)
count_task-unsuccessful n task TaskStatus.canceled e = rw (e, count_status) (ground arith)

unsuccessful_le-tally_from :
    (n : Tally) (tasks : List Task) → unsuccessful n ≤ unsuccessful (tally_from n tasks)
unfolding tally_from
unsuccessful_le-tally_from n [] = omega arith
unsuccessful_le-tally_from n (task ∷ tasks) = ground (
  arith,
  count_task-unsuccessful n task task.status refl,
  unsuccessful_le-tally_from (count_task n task) tasks,
)

tally_from-unsuccessful :
    (n : Tally) (tasks : List Task)
    → unsuccessful n ≡ 0
    → (unsuccessful (tally_from n tasks) ≡ 0) ↔ All (λ task. is_succeeded task.status ≡ true) tasks
unfolding tally_from
tally_from-unsuccessful n [] h = (λ _. tt, λ _. h)
tally_from-unsuccessful n (task ∷ tasks) h = elim (Bool-cases (is_succeeded task.status)) [
  | inl done ↦
      let same : unsuccessful (count_task n task) ≡ 0 =
        ground (arith, count_task-unsuccessful n task task.status refl) in
      let rest = tally_from-unsuccessful (count_task n task) tasks same in
      (λ e. (done, rest.0 e), λ all. rest.1 all.1)
  | inr other ↦ (
    λ e. absurd (
        ground (
          arith,
          count_task-unsuccessful n task task.status refl,
          unsuccessful_le-tally_from (count_task n task) tasks,
        )),
    λ all. absurd (ground arith),
  )
]

reduced_status-succeeded :
    (cancel pause : Option ℕ) (n : Tally)
    → (reduced_status cancel pause n ≡ JobStatus.succeeded)
      ↔ ((unsuccessful n ≡ 0) × (is_some cancel ≡ false))
unfolding reduced_status is_terminal
reduced_status-succeeded cancel pause n = (λ e. (ground arith, ground arith), λ h. ground arith)

-- A job with tasks has succeeded without warnings exactly if each of its tasks has succeeded and its
-- cancellation was not requested.
pub reduce_job-succeeded :
    (lib : Library) (now : ℕ) (task : Task) (tasks : List Task) (job : Job)
    → ((reduce_job lib now (task ∷ tasks) job).status ≡ JobStatus.succeeded) ↔ (
        All (λ t. is_succeeded t.status ≡ true) (task ∷ tasks)
        × (is_some job.cancel_requested_at ≡ false))
unfolding reduce_job save_tally
reduce_job-succeeded lib now task tasks job =
    let n = tally_from no_tasks (task ∷ tasks) in
    let status = reduced_status-succeeded job.cancel_requested_at job.pause_requested_at n in
    let start : unsuccessful no_tasks ≡ 0 = unfold no_tasks in refl in
    let all = tally_from-unsuccessful no_tasks (task ∷ tasks) start in
    (λ e. (all.0 (status.0 e).0, (status.0 e).1), λ h. status.1 (all.1 h.0, h.1))

-- A job that has a task which is not finished is not in a final status.
pub reduce_job_open :
    (lib : Library) (now : ℕ) (tasks : List Task) (job : Job)
    → ¬ All (λ t. terminal_task_status t.status ≡ true) tasks
    → terminal_job_status (reduce_job lib now tasks job).status ≡ false
reduce_job_open lib now [] job open_ = absurd (open_ tt)
reduce_job_open lib now (task ∷ tasks) job open_ =
    elim (Bool-cases (terminal_job_status (reduce_job lib now (task ∷ tasks) job).status)) [
      | inl done ↦ absurd (open_ ((reduce_job_finished lib now task tasks job).0 done))
      | inr e ↦ e
    ]
