-- ===== src/Jobs/Repo.antt =====
-- internal/storage/jobs_repo.go: the statements on the row of one job, as functions. PostgreSQL runs
-- each as one atomic update, and a trigger of migrations/0002_jobs.up.sql sets `updated_at`; a statement
-- that a constraint of the table refuses changes nothing and is left out. The name, the source and the
-- JSON of the metadata are left out but for the last error, and a time is a number.
pub mod Progress
use mailclear.Base.{
  ℕ, suc, ◌+◌, ◌-◌, Bool, true, false, ◌&&◌, List, [], ◌∷◌, take, Option, none, some, ltb,
  if◌then◌else◌,
}
use mailclear.Text.{Text, lit}

-- the values of `job_status`
pub data JobStatus : Type 0 where
  pending running paused completed failed cancelled : JobStatus

pub record ProgressDelta : Type 0 where
  pub processed : ℕ
  pub valid : ℕ
  pub invalid : ℕ
  pub risky : ℕ
  pub unknown : ℕ
  pub disposable : ℕ

-- `counts` are the six counters
pub record Job : Type 0 where
  pub status : JobStatus
  pub total : ℕ
  pub counts : ProgressDelta
  pub updated_at : ℕ
  pub started_at : Option ℕ
  pub finished_at : Option ℕ
  pub last_error : Option (Text × Text)

unfoldable pub create : (now total : ℕ) → Job
create now total = record {
  status = pending;
  total = total;
  counts = record { processed = 0; valid = 0; invalid = 0; risky = 0; unknown = 0; disposable = 0 };
  updated_at = now;
  started_at = none;
  finished_at = none;
  last_error = none;
}

-- `IN ('completed', 'failed', 'cancelled')`
unfoldable pub is_over : JobStatus → Bool
is_over completed = true
is_over failed = true
is_over cancelled = true
is_over _ = false

-- `IN ('pending', 'running', 'paused')`
unfoldable pub is_unlockable : JobStatus → Bool
is_unlockable pending = true
is_unlockable running = true
is_unlockable paused = true
is_unlockable _ = false

-- `COALESCE(started_at, CASE WHEN 'running' THEN now() ELSE NULL END)`
unfoldable pub start_time : ℕ → JobStatus → Option ℕ → Option ℕ
start_time now s (some t) = some t
start_time now running none = some now
start_time now _ none = none

unfoldable pub update_status : ℕ → JobStatus → Job → Job
unfolding is_over start_time
update_status now s j = record j {
  status = s;
  updated_at = now;
  started_at = start_time now s j.started_at;
  finished_at = if is_over s then some now else j.finished_at;
}

unfoldable pub add_counts : ProgressDelta → ProgressDelta → ProgressDelta
add_counts c d = record {
  processed = c.processed + d.processed;
  valid = c.valid + d.valid;
  invalid = c.invalid + d.invalid;
  risky = c.risky + d.risky;
  unknown = c.unknown + d.unknown;
  disposable = c.disposable + d.disposable;
}

unfoldable pub increment_progress : ℕ → ProgressDelta → Job → Job
unfolding add_counts
increment_progress now d j = record j { counts = add_counts j.counts d; updated_at = now }

unfoldable pub cancel : ℕ → Job → Job
unfolding is_unlockable
cancel now j =
    if is_unlockable j.status
    then record j { status = cancelled; finished_at = some now; updated_at = now }
    else j

unfoldable pub set_last_error : ℕ → (phase message : Text) → Job → Job
set_last_error now phase message j = record j {
  last_error = some (phase, message);
  updated_at = now;
}

-- `ForceFail`, whose `false` is the error that the job cannot be unlocked
unfoldable pub force_fail : ℕ → Text → Job → Bool × Job
unfolding is_unlockable
force_fail now reason j =
    if is_unlockable j.status
    then (
      true,
      record j {
        status = failed;
        finished_at = some now;
        updated_at = now;
        last_error = some (lit "force_fail", reason);
      },
    )
    else (false, j)

-- `status IN ('pending', 'running')`
unfoldable pub is_active : JobStatus → Bool
is_active pending = true
is_active running = true
is_active _ = false

-- `MarkStaleAsFailed`, on one row
unfoldable pub mark_stale_as_failed : (now stale_after : ℕ) → Job → Job
unfolding is_active
mark_stale_as_failed now stale_after j =
    if is_active j.status && ltb (j.updated_at + stale_after) now
    then record j { status = failed; finished_at = some now; updated_at = now }
    else j

-- `status = $1`
unfoldable pub same_status : JobStatus → JobStatus → Bool
same_status pending pending = true
same_status running running = true
same_status paused paused = true
same_status completed completed = true
same_status failed failed = true
same_status cancelled cancelled = true
same_status _ _ = false

-- `CountByStatus`
unfoldable pub count_by_status : JobStatus → List Job → ℕ
unfolding same_status
count_by_status s [] = 0
count_by_status s (j ∷ js) =
    let rest = count_by_status s js in if same_status j.status s then suc rest else rest

-- `ORDER BY updated_at ASC`, where a row stands before those that are as old
unfoldable pub insert_by_age : Job → List Job → List Job
insert_by_age j [] = j ∷ []
insert_by_age j (k ∷ ks) =
    let rest = insert_by_age j ks in if ltb k.updated_at j.updated_at then k ∷ rest else j ∷ k ∷ ks

-- the rows of `ListStale` before its limit
unfoldable pub stale_jobs : (now stale_after : ℕ) → List Job → List Job
unfolding is_active insert_by_age
stale_jobs now stale_after [] = []
stale_jobs now stale_after (j ∷ js) =
    let rest = stale_jobs now stale_after js in
    if is_active j.status && ltb (j.updated_at + stale_after) now
    then insert_by_age j rest
    else rest

-- `ListStale`
unfoldable pub list_stale : (now stale_after limit : ℕ) → List Job → List Job
unfolding stale_jobs
list_stale now stale_after limit jobs = take limit (stale_jobs now stale_after jobs)
