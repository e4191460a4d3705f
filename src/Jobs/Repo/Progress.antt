-- ===== src/Jobs/Repo/Progress.antt =====
-- What every sequence of statements keeps.
use mailclear.Base.{ℕ, ◌+◌, ◌≡◌, ◌≢◌, refl, true, false, List, [], ◌∷◌, none, All, arith}
use mailclear.Text.{Text}
use mailclear.Jobs.Repo.{
  JobStatus, running, ProgressDelta, Job, create, is_over, update_status, increment_progress,
  cancel, set_last_error, force_fail, mark_stale_as_failed,
}

pub data Statement : Type 0 where
  update : ℕ → JobStatus → Statement
  progress : ℕ → ProgressDelta → Statement
  cancel_job : ℕ → Statement
  set_error : ℕ → Text → Text → Statement
  force : ℕ → Text → Statement
  sweep : (now stale_after : ℕ) → Statement

abbrev pub exec : Statement → Job → Job
exec (update now s) j = update_status now s j
exec (progress now d) j = increment_progress now d j
exec (cancel_job now) j = cancel now j
exec (set_error now phase message) j = set_last_error now phase message j
exec (force now reason) j = (force_fail now reason j).1
exec (sweep now stale_after) j = mark_stale_as_failed now stale_after j

abbrev pub exec_all : List Statement → Job → Job
exec_all [] j = j
exec_all (s ∷ ss) j = exec_all ss (exec s j)

-- the counters of the statuses sum up to the processed emails
abbrev pub IsTallied : ProgressDelta → Type 0
IsTallied d = d.processed ≡ d.valid + d.invalid + d.risky + d.unknown + d.disposable

-- every delta in the statements sums up
abbrev pub IsExact : Statement → Type 0
IsExact (progress _ d) = IsTallied d
IsExact _ = Unit

-- the counters agree, a job that is over has an end, and a running one has a start
pub record IsJob (j : Job) : Type 0 where
  pub tallied : IsTallied j.counts
  pub ended : is_over j.status ≡ true → j.finished_at ≢ none
  pub started : j.status ≡ running → j.started_at ≢ none

exec-IsJob : (s : Statement) (j : Job) → IsExact s → IsJob j → IsJob (exec s j)
unfolding update_status increment_progress cancel set_last_error force_fail mark_stale_as_failed
exec-IsJob (update now st) j exact h = record {
  tallied = ground (arith, h.tallied);
  ended = ground (arith, h.ended);
  started = ground (arith, h.started);
}
exec-IsJob (progress now d) j exact h = record {
  tallied = ground (arith, h.tallied);
  ended = ground (arith, h.ended);
  started = ground (arith, h.started);
}
exec-IsJob (cancel_job now) j exact h = record {
  tallied = ground (arith, h.tallied);
  ended = ground (arith, h.ended);
  started = ground (arith, h.started);
}
exec-IsJob (set_error now phase m) j exact h = record {
  tallied = ground (arith, h.tallied);
  ended = ground (arith, h.ended);
  started = ground (arith, h.started);
}
exec-IsJob (force now reason) j exact h = record {
  tallied = ground (arith, h.tallied);
  ended = ground (arith, h.ended);
  started = ground (arith, h.started);
}
exec-IsJob (sweep now after) j exact h = record {
  tallied = ground (arith, h.tallied);
  ended = ground (arith, h.ended);
  started = ground (arith, h.started);
}

exec_all-IsJob : (ss : List Statement) (j : Job) → All IsExact ss → IsJob j → IsJob (exec_all ss j)
exec_all-IsJob [] j exact h = h
exec_all-IsJob (s ∷ ss) j exact h = exec_all-IsJob ss (exec s j) exact.1 (exec-IsJob s j exact.0 h)

new-IsJob : (now total : ℕ) → IsJob (create now total)
unfolding create is_over
new-IsJob now total = record {
  tallied = refl;
  ended = λ e. absurd (ground arith);
  started = λ e. absurd (ground arith);
}

-- After any statements whose deltas sum up, in any order, the processed emails of a new job are the sum
-- of its counters by status; a job that is over has an end, and a running one has a start.
pub create-IsJob :
    (now total : ℕ) (ss : List Statement) → All IsExact ss → IsJob (exec_all ss (create now total))
create-IsJob now total ss exact = exec_all-IsJob ss (create now total) exact (new-IsJob now total)

-- Whatever the status of a job, `UpdateStatus` replaces it, also that of a cancelled job; `Cancel` and
-- `ForceFail` leave a job that is over as it is.
pub update_status_overwrites :
    (now : ℕ) (s : JobStatus) (reason : Text) (j : Job)
    → is_over j.status ≡ true
    → ((update_status now s j).status ≡ s)
      × (cancel now j ≡ j)
      × (force_fail now reason j ≡ (false, j))
unfolding update_status cancel force_fail
update_status_overwrites now s reason j over = ground arith
