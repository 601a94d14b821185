-- ===== src/Jobs/Queue.antt =====
-- jobs/queue.py: `Job` and `InMemoryJobQueue`. The queue is its list of jobs. A payload has any
-- type. A handler gives nothing where it returns and the text of its exception where it raises; it
-- does not touch the queue. The id and the time of a new job, and the text of the exception on a
-- missing handler, are arguments.
use house_analysis_ai.Prelude.{
  ℕ, ◌+◌, Bool, true, false, ◌&&◌, Option, none, some, List, [], ◌∷◌, ◌++◌, String, Dict, lookup,
  ◌==◌, string_eq, number_eq, leb, if◌then◌else◌, find,
}
use house_analysis_ai.Contracts.{Uuid}

pub data JobStatus : Type 0 where
  queued running complete failed dead : JobStatus

abbrev pub is_queued : JobStatus → Bool
is_queued queued = true
is_queued running = false
is_queued complete = false
is_queued failed = false
is_queued dead = false

-- `status in (JobStatus.QUEUED, JobStatus.RUNNING)`
abbrev pub is_active : JobStatus → Bool
is_active queued = true
is_active running = true
is_active complete = false
is_active failed = false
is_active dead = false

pub record Job (P : Type 0) : Type 0 where
  pub name : String
  pub payload : P
  pub dedupe_key : Option String
  pub id : Uuid
  pub status : JobStatus
  pub attempts : ℕ
  pub max_attempts : ℕ
  pub error : Option String
  pub created_at : ℕ

abbrev pub Handlers : Type 0 → Type 0
Handlers P = Dict (P → Option String)

module _ {P : Type 0} where
  -- An active job holds its key.
  unfoldable pub holds : String → Job P → Bool
  holds key job = elim job.dedupe_key [ none ↦ false | some k ↦ k == key && is_active job.status ]

  -- the active job with a key, if a key is given that is not the empty text
  unfoldable pub active_holder : Option String → List (Job P) → Option (Job P)
  active_holder none jobs = none
  active_holder (some key) jobs = if key == "" then none else find (holds key) jobs

  unfoldable pub fresh : Uuid → ℕ → String → P → Option String → Job P
  fresh id now name payload key = record {
    name = name;
    payload = payload;
    dedupe_key = key;
    id = id;
    status = queued;
    attempts = 0;
    max_attempts = 3;
    error = none;
    created_at = now;
  }

  -- the queue afterwards, and the job that is returned
  unfoldable pub enqueue :
      Uuid → ℕ → String → P → Option String → List (Job P) → List (Job P) × Job P
  enqueue id now name payload key jobs = elim (active_holder key jobs) [
    | some active ↦ (jobs, active)
    | none ↦ (jobs ++ (fresh id now name payload key ∷ []), fresh id now name payload key)
  ]

  -- `job.status, job.attempts = JobStatus.RUNNING, job.attempts + 1`
  abbrev pub start : Job P → Job P
  start job = record {
    name = job.name;
    payload = job.payload;
    dedupe_key = job.dedupe_key;
    id = job.id;
    status = running;
    attempts = job.attempts + 1;
    max_attempts = job.max_attempts;
    error = job.error;
    created_at = job.created_at;
  }

  abbrev pub call_handler : (String → String) → Handlers P → Job P → Option String
  call_handler key_error_text handlers job = elim (lookup job.name handlers) [
    | none ↦ some (key_error_text job.name)
    | some handler ↦ handler job.payload
  ]

  -- the `except` and the `else` of the call
  unfoldable pub finish : Job P → Option String → Job P
  finish job none = record {
    name = job.name;
    payload = job.payload;
    dedupe_key = job.dedupe_key;
    id = job.id;
    status = complete;
    attempts = job.attempts;
    max_attempts = job.max_attempts;
    error = job.error;
    created_at = job.created_at;
  }
  finish job (some message) = record {
    name = job.name;
    payload = job.payload;
    dedupe_key = job.dedupe_key;
    id = job.id;
    status = if leb job.max_attempts job.attempts then dead else queued;
    attempts = job.attempts;
    max_attempts = job.max_attempts;
    error = some message;
    created_at = job.created_at;
  }

  unfoldable pub run_job : (String → String) → Handlers P → Job P → Job P
  run_job key_error_text handlers job =
      finish (start job) (call_handler key_error_text handlers (start job))

  -- The first queued job is run where it stands in the list.
  unfoldable pub run_once :
      (String → String) → Handlers P → List (Job P) → List (Job P) × Option (Job P)
  run_once key_error_text handlers [] = ([], none)
  run_once key_error_text handlers (job ∷ jobs) =
      let (rest, ran) = run_once key_error_text handlers jobs in
      if is_queued job.status
      then (run_job key_error_text handlers job ∷ jobs, some (run_job key_error_text handlers job))
      else (job ∷ rest, ran)
