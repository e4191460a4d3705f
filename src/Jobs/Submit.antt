-- ===== src/Jobs/Submit.antt =====
-- internal/jobs/manager.go, `Submit` and `waitForCompletion`. The k-th call of `pool.Submit` returns
-- `answer k`; the context of the background has no end. `UpdateStatus` is taken to succeed where its
-- error is dropped.
pub mod Chunks
use mailclear.Base.{
  ℕ, zero, suc, Bool, true, false, List, [], ◌∷◌, ◌++◌, Option, none, some, length, take, drop, leb,
  ◌==◌, if◌then◌else◌,
}
use mailclear.Text.{Text}
use mailclear.Jobs.Repo.{JobStatus, running, completed, failed, cancelled, Job, update_status}

-- `NewManager`
unfoldable pub batch_size : ℕ → ℕ
batch_size n = if n == 0 then 1000 else n

-- the slices of the loop; each takes at least one email, so as much fuel as there are emails is enough
unfoldable pub chunks : (fuel size : ℕ) → List Text → List (List Text)
chunks zero size emails = []
chunks (suc n) size [] = []
chunks (suc n) size (e ∷ es) = take size (e ∷ es) ∷ chunks n size (drop size (e ∷ es))

-- the tasks that the pool took before its first error
unfoldable pub enqueue : (ℕ → Option Text) → ℕ → List (List Text) → List (List Text) × Option Text
enqueue answer k [] = ([], none)
enqueue answer k (task ∷ tasks) =
    let (taken, err) = enqueue answer (suc k) tasks in
    elim (answer k) [ some e ↦ ([], some e) | none ↦ (task ∷ taken, err) ]

-- `waiting` tells whether `waitForCompletion` was started
pub record Submitted : Type 0 where
  pub tasks : List (List Text)
  pub err : Option Text
  pub waiting : Bool
  pub job : Job

-- `Submit`, where `status_err` is the error of `UpdateStatus`
unfoldable pub submit :
    ℕ → (size : ℕ) → (status_err : Option Text) → (ℕ → Option Text) → List Text → Job → Submitted
unfolding chunks enqueue update_status
submit now size status_err answer emails j = elim status_err [
  | some err ↦ record { tasks = []; err = some err; waiting = false; job = j }
  | none ↦
      let (taken, err) = enqueue answer 0 (chunks (length emails) size emails) in
      record {
        tasks = taken;
        err = err;
        waiting = elim err [ none ↦ true | some _ ↦ false ];
        job = update_status now running j;
      }
]

-- a tick of the ticker: past the deadline, or what `Get` returns
pub record Tick : Type 0 where
  pub now : ℕ
  pub late : Bool
  pub got : Option Job

-- the job is left to others, gets a last status, or is looked at again
pub data Verdict : Type 0 where
  leave : Verdict
  mark : JobStatus → Verdict
  again : Verdict

unfoldable pub judge : (total : ℕ) → Job → Verdict
judge total j = elim j.status [
  | cancelled ↦ leave
  | completed ↦ leave
  | failed ↦ leave
  | _ ↦ if leb total j.counts.processed then mark completed else again
]

-- the body of the loop
unfoldable pub wait_turn : (total : ℕ) → Tick → Verdict
unfolding judge
wait_turn total t =
    if t.late then mark failed else elim t.got [ none ↦ leave | some j ↦ judge total j ]

-- `waitForCompletion`: the status that it writes, if any, over the ticks it sees
unfoldable pub wait_for_completion : (total : ℕ) → List Tick → Option JobStatus
unfolding wait_turn
wait_for_completion zero ts = some completed
wait_for_completion (suc n) [] = none
wait_for_completion (suc n) (t ∷ ts) =
    let rest = wait_for_completion (suc n) ts in
    elim (wait_turn (suc n) t) [ leave ↦ none | mark s ↦ some s | again ↦ rest ]
