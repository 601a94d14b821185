-- ===== src/Jobs/Invariant.antt =====
-- The queue of jobs/queue.py: what every sequence of its operations keeps.
use house_analysis_ai.Prelude.{
  ℕ, ◌+◌, ◌≤◌, ◌<◌, Bool, true, false, Option, none, some, List, [], ◌∷◌, ◌++◌, String, ◌≡◌, refl,
  sym, subst, inl, inr, ◌==◌, string_eq, if◌then◌else◌, find, count_if, All, All-append, arith,
  Bool-cases, eq_iff,
}
use house_analysis_ai.Contracts.{Uuid}
use house_analysis_ai.Jobs.{
  is_queued, Job, Handlers, holds, active_holder, fresh, enqueue, start, call_handler, finish,
  run_job, run_once,
}

module _ {A : Type 0} where
  find-none : (p : A → Bool) (xs : List A) → find p xs ≡ none → count_if p xs ≡ 0
  find-none p [] h = refl
  find-none p (x ∷ xs) h = split (p x) refl h (find-none p xs)
    where
      split :
          (b : Bool)
          → p x ≡ b
          → (if b then some x else find p xs) ≡ none
          → (find p xs ≡ none → count_if p xs ≡ 0)
          → count_if p (x ∷ xs) ≡ 0
      split true e h k = cc
      split false e h k = rw (e, k h)

  count_if-append :
      (p : A → Bool) (xs : List A) (x : A)
      → count_if p (xs ++ (x ∷ [])) ≡ count_if p xs + (if p x then 1 else 0)
  count_if-append p [] x = omega arith
  count_if-append p (y ∷ ys) x = omega (arith, count_if-append p ys x)

module _ {P : Type 0} where
  -- At most one active job holds a key that is not the empty text.
  abbrev pub IsDeduplicated : List (Job P) → Type 0
  IsDeduplicated jobs = (key : String) → (key == "") ≡ false → count_if (holds key) jobs ≤ 1

  -- No job has had more attempts than it may have, and a queued one has an attempt left.
  abbrev pub IsBounded : Job P → Type 0
  IsBounded job =
      (job.attempts ≤ job.max_attempts)
      × (is_queued job.status ≡ true → job.attempts < job.max_attempts)

  append-IsDeduplicated :
      (jobs : List (Job P)) (job : Job P)
      → IsDeduplicated jobs
      → ((k : String) → (k == "") ≡ false → holds k job ≡ true → count_if (holds k) jobs ≡ 0)
      → IsDeduplicated (jobs ++ (job ∷ []))
  append-IsDeduplicated jobs job h free k n = elim (Bool-cases (holds k job)) [
    | inl e ↦ rw (count_if-append (holds k) jobs job, e, free k n e) (omega arith)
    | inr e ↦ rw (count_if-append (holds k) jobs job, e) (omega (arith, h k n))
  ]

  holds-fresh :
      (id : Uuid) (now : ℕ) (name : String) (payload : P) (key k : String)
      → holds k (fresh id now name payload (some key)) ≡ true
      → key ≡ k
  unfolding holds fresh
  holds-fresh id now name payload key k h = ground (arith, eq_iff key k)

  holds-unkeyed :
      (id : Uuid) (now : ℕ) (name : String) (payload : P) (k : String)
      → holds k (fresh id now name payload none) ≡ false
  unfolding holds fresh
  holds-unkeyed id now name payload k = refl

  free_key :
      (key : String) (jobs : List (Job P))
      → (key == "") ≡ false
      → active_holder (some key) jobs ≡ none
      → count_if (holds key) jobs ≡ 0
  unfolding active_holder
  free_key key jobs n h = find-none (holds key) jobs (let found = h in cc)

  -- A new job has another key, or takes the key while nobody holds it.
  enqueue-IsDeduplicated :
      (id : Uuid) (now : ℕ) (name : String) (payload : P) (key : Option String)
      (jobs : List (Job P))
      → IsDeduplicated jobs
      → IsDeduplicated (enqueue id now name payload key jobs).0
  unfolding enqueue
  enqueue-IsDeduplicated id now name payload key jobs h = split (active_holder key jobs) refl
    where
      unheld :
          (key : Option String)
          → active_holder key jobs ≡ none
          → (k : String) → (k == "") ≡ false
          → holds k (fresh id now name payload key) ≡ true
          → count_if (holds k) jobs ≡ 0
      unheld none e k n t = let never = holds-unkeyed id now name payload k in cc
      unheld (some key) e k n t =
          let same_key = holds-fresh id now name payload key k t in
          let given = subst (λ x. (x == "") ≡ false) (sym same_key) n in
          subst (λ x. count_if (holds x) jobs ≡ 0) same_key (free_key key jobs given e)

      split :
          (o : Option (Job P))
          → active_holder key jobs ≡ o
          → IsDeduplicated
              (elim o as (λ o. List (Job P) × Job P) [
                | some active ↦ (jobs, active)
                | none ↦
                    (jobs ++ (fresh id now name payload key ∷ []), fresh id now name payload key)
              ]).0
      split (some active) e = h
      split none e = append-IsDeduplicated jobs _ h (unheld key e)

  run_job-IsBounded :
      (text : String → String) (handlers : Handlers P) (job : Job P)
      → is_queued job.status ≡ true
      → IsBounded job
      → IsBounded (run_job text handlers job)
  unfolding run_job finish
  run_job-IsBounded text handlers job q h = split (call_handler text handlers (start job))
    where
      split : (o : Option String) → IsBounded (finish (start job) o)
      split none = (omega (arith, h.1 q), λ e. cc)
      split (some m) = (omega (arith, h.1 q), λ e. ground arith)

  -- A job that runs keeps its key, and was active before.
  run_job-holds :
      (text : String → String) (handlers : Handlers P) (job : Job P) (key : String)
      → is_queued job.status ≡ true
      → holds key (run_job text handlers job) ≡ true
      → holds key job ≡ true
  unfolding run_job finish holds
  run_job-holds text handlers job key q h = ground arith

module _ {P : Type 0} (text : String → String) (handlers : Handlers P) where
  count-run_once :
      (jobs : List (Job P)) (key : String)
      → count_if (holds key) (run_once text handlers jobs).0 ≤ count_if (holds key) jobs
  unfolding run_once
  count-run_once [] key = omega arith
  count-run_once (job ∷ jobs) key = elim (Bool-cases (is_queued job.status)) [
    | inl q ↦ rw q (
        head (holds key (run_job text handlers job)) (holds key job)
          (run_job-holds text handlers job key q))
    | inr q ↦ rw q (omega (arith, count-run_once jobs key))
  ]
    where
      head :
          (a b : Bool)
          → (a ≡ true → b ≡ true)
          → (if a then 1 else 0) + count_if (holds key) jobs
            ≤ (if b then 1 else 0) + count_if (holds key) jobs
      head a b h = ground arith

  pub run_once-All :
      (jobs : List (Job P)) → All IsBounded jobs → All IsBounded (run_once text handlers jobs).0
  unfolding run_once
  run_once-All [] h = tt
  run_once-All (job ∷ jobs) h = elim (Bool-cases (is_queued job.status)) [
    | inl q ↦ rw q (run_job-IsBounded text handlers job q h.0, h.1)
    | inr q ↦ rw q (h.0, run_once-All jobs h.1)
  ]

module _ {P : Type 0} where
  enqueue-All :
      (id : Uuid) (now : ℕ) (name : String) (payload : P) (key : Option String)
      (jobs : List (Job P))
      → All IsBounded jobs
      → All IsBounded (enqueue id now name payload key jobs).0
  unfolding enqueue fresh
  enqueue-All id now name payload key jobs h = split (active_holder key jobs)
    where
      split :
          (o : Option (Job P))
          → All IsBounded
              (elim o as (λ o. List (Job P) × Job P) [
                | some active ↦ (jobs, active)
                | none ↦
                    (jobs ++ (fresh id now name payload key ∷ []), fresh id now name payload key)
              ]).0
      split (some active) = h
      split none = All-append IsBounded jobs _ h ((omega arith, λ q. omega arith), tt)

  -- A queue that starts empty and is used by any sequence of calls, with any handlers.
  pub data Reachable : List (Job P) → Type 0 where
    created : Reachable []
    enqueued :
        {jobs : List (Job P)} (id : Uuid) (now : ℕ) (name : String) (payload : P)
        (key : Option String)
        → Reachable jobs
        → Reachable (enqueue id now name payload key jobs).0
    ran :
        {jobs : List (Job P)} (text : String → String) (handlers : Handlers P)
        → Reachable jobs
        → Reachable (run_once text handlers jobs).0

  -- Whatever the calls of `enqueue` and `run_once` and the outcomes of the handlers were, at most
  -- one active job holds a given key, no job has had more attempts than it may have, and each
  -- queued job has an attempt left.
  pub Reachable-IsSound :
      (jobs : List (Job P)) → Reachable jobs → IsDeduplicated jobs × All IsBounded jobs
  Reachable-IsSound jobs created = (λ key n. omega arith, tt)
  Reachable-IsSound jobs (enqueued {jobs = before} id now name payload key r) = (
    enqueue-IsDeduplicated id now name payload key before (Reachable-IsSound before r).0,
    enqueue-All id now name payload key before (Reachable-IsSound before r).1,
  )
  Reachable-IsSound jobs (ran {jobs = before} text handlers r) = (
    λ key n.
        let less = count-run_once text handlers before key in
        let held = (Reachable-IsSound before r).0 key n in omega arith,
    run_once-All text handlers before (Reachable-IsSound before r).1,
  )
