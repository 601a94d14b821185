-- ===== src/Jobs/Progress.antt =====
-- The queue of jobs/queue.py: running it ends.
use house_analysis_ai.Prelude.{
  ℕ, zero, suc, ◌+◌, ◌-◌, ◌≤◌, ◌<◌, true, false, Option, none, some, List, [], ◌∷◌, String, ◌≡◌,
  refl, ◌⊎◌, inl, inr, if◌then◌else◌, All, arith, Bool-cases,
}
use house_analysis_ai.Jobs.{
  is_queued, Job, Handlers, start, call_handler, finish, run_job, run_once,
}
use house_analysis_ai.Jobs.Invariant
use house_analysis_ai.Jobs.Invariant.{IsBounded}

module _ {P : Type 0} where
  -- the attempts that the queued jobs have left
  unfoldable pub left : Job P → ℕ
  left job = if is_queued job.status then job.max_attempts - job.attempts else 0

  left_idle : (job : Job P) → is_queued job.status ≡ false → left job ≡ 0
  unfolding left
  left_idle job q = rw q refl

  left_queued : (job : Job P) → is_queued job.status ≡ true → IsBounded job → 0 < left job
  unfolding left
  left_queued job q h = rw q (omega (arith, h.1 q))

  abbrev pub attempts_left : List (Job P) → ℕ
  attempts_left [] = 0
  attempts_left (job ∷ jobs) = left job + attempts_left jobs

module _ {P : Type 0} (text : String → String) (handlers : Handlers P) where
  -- `run_once` called n times
  unfoldable pub run_times : ℕ → List (Job P) → List (Job P)
  run_times zero jobs = jobs
  run_times (suc n) jobs = run_times n (run_once text handlers jobs).0

  left-run_job :
      (job : Job P)
      → is_queued job.status ≡ true
      → IsBounded job
      → left (run_job text handlers job) < left job
  unfolding run_job finish left
  left-run_job job q h = split (call_handler text handlers (start job))
    where
      split : (o : Option String) → left (finish (start job) o) < left job
      split none = rw q (omega (arith, h.1 q))
      split (some m) = rw q (ground (arith, h.1 q))

  -- A call uses up an attempt, while there is one left.
  run_once_step :
      (jobs : List (Job P))
      → All IsBounded jobs
      → attempts_left (run_once text handlers jobs).0 ≤ attempts_left jobs - 1
  unfolding run_once
  run_once_step [] h = omega arith
  run_once_step (job ∷ jobs) h = elim (Bool-cases (is_queued job.status)) [
    | inl q ↦ rw q (omega (arith, left-run_job job q h.0))
    | inr q ↦ rw q (omega (arith, left_idle job q, run_once_step jobs h.1))
  ]

  none_left :
      (jobs : List (Job P))
      → All IsBounded jobs
      → attempts_left jobs ≡ 0
      → All (λ job. is_queued job.status ≡ false) jobs
  none_left [] h e = tt
  none_left (job ∷ jobs) h e =
      (idle (Bool-cases (is_queued job.status)), none_left jobs h.1 (omega arith))
    where
      idle :
          (is_queued job.status ≡ true) ⊎ (is_queued job.status ≡ false)
          → is_queued job.status ≡ false
      idle (inl q) = let some_left = left_queued job q h.0 in ground arith
      idle (inr q) = q

  run_times-Idle :
      (n : ℕ) (jobs : List (Job P))
      → All IsBounded jobs
      → attempts_left jobs ≤ n
      → All (λ job. is_queued job.status ≡ false) (run_times n jobs)
  unfolding run_times
  run_times-Idle zero jobs h e = none_left jobs h (omega arith)
  run_times-Idle (suc n) jobs h e =
      run_times-Idle n _ (Invariant.run_once-All text handlers jobs h)
        (omega (arith, run_once_step jobs h))

  -- Running a queue ends, whatever the handlers raise: after as many calls of `run_once` as the
  -- queued jobs have attempts left, no job is queued. The queue comes from any sequence of calls.
  pub drains :
      (jobs : List (Job P))
      → Invariant.Reachable jobs
      → All (λ job. is_queued job.status ≡ false) (run_times (attempts_left jobs) jobs)
  drains jobs r =
      run_times-Idle (attempts_left jobs) jobs (Invariant.Reachable-IsSound jobs r).1 (omega arith)
