-- ===== src/Jobs/Handler.antt =====
-- internal/jobs/handler.go, the handler of one task. The validations run in parallel and do not share
-- state, so they are a list; of several errors errgroup keeps the first in time, here the first in
-- the list. The pre-warming only fills the cache of the resolver. JSON of the reasons is left out.
pub mod Statuses
pub mod Domains
pub mod Prewarm
pub mod Tally
use mailclear.Base.{
  ℕ, suc, ◌+◌, Bool, List, [], ◌∷◌, ◌++◌, Option, none, some, map, length, if◌then◌else◌,
}
use mailclear.Base.Int.{ℤ}
use mailclear.Text.{Text, Unicode, lit, is_empty, to_lower, trim_space, last_index_byte, member}
use mailclear.Base.{drop, ◌-◌, ◌==◌, zero}
use mailclear.Validation.Types.{Status, Classification, Email}
use mailclear.Validation.Pipeline.{CtxError}
use mailclear.Jobs.Repo.{
  Job, ProgressDelta, failed, update_status, set_last_error, increment_progress,
}

-- the trimmed text after the last '@', in lower case, if the '@' is neither first nor last
unfoldable pub domain_of : Unicode → Text → Option Text
domain_of u raw = elim (last_index_byte raw b'@') [
  | none ↦ none
  | some at ↦
      let d = to_lower u (trim_space u (drop (at + 1) raw)) in
      if at == 0
      then none
      else if at == length raw - 1
      then none
      else if is_empty d
      then none
      else some d
]

-- the loop of `uniqueDomains`; `out` holds the domains seen
unfoldable pub domains_from : Unicode → List Text → List Text → List Text
unfolding domain_of
domains_from u out [] = out
domains_from u out (raw ∷ raws) = elim (domain_of u raw) [
  | none ↦ domains_from u out raws
  | some d ↦ domains_from u (if member d out then out else out ++ (d ∷ [])) raws
]

unfoldable pub unique_domains : Unicode → List Text → List Text
unfolding domains_from
unique_domains u raws = domains_from u [] raws

-- the columns of a result, without the job
pub record EmailResult : Type 0 where
  pub email_original : Text
  pub email_normalized : Text
  pub local_part : Text
  pub domain : Text
  pub status : Status
  pub classification : Classification
  pub score : ℤ
  pub suggested_email : Option Text
  pub is_disposable : Bool
  pub is_role : Bool
  pub has_mx : Bool

unfoldable pub or_fallback : Text → Text → Text
or_fallback primary fallback = if is_empty primary then fallback else primary

unfoldable pub known_class : Classification → Classification
known_class Classification.blank = Classification.unknown
known_class c = c

unfoldable pub record_of : Email → EmailResult
unfolding or_fallback known_class
record_of e = record {
  email_original = e.original;
  email_normalized = or_fallback e.normalized e.original;
  local_part = e.local_part;
  domain = e.domain;
  status = e.status;
  classification = known_class e.classification;
  score = e.score;
  suggested_email = if is_empty e.suggested then none else some e.suggested;
  is_disposable = e.is_disposable;
  is_role = e.is_role;
  has_mx = e.has_mx;
}

-- the `switch` on the status
unfoldable pub count_email : Status → ProgressDelta → ProgressDelta
count_email Status.valid d = record d { valid = d.valid + 1 }
count_email Status.invalid d = record d { invalid = d.invalid + 1 }
count_email Status.risky d = record d { risky = d.risky + 1 }
count_email Status.unknown d = record d { unknown = d.unknown + 1 }
count_email Status.disposable d = record d { disposable = d.disposable + 1 }
count_email _ d = d

unfoldable pub count_all : List Email → ProgressDelta → ProgressDelta
unfolding count_email
count_all [] d = d
count_all (e ∷ es) d = count_all es (count_email e.status d)

unfoldable pub delta_of : List Email → ProgressDelta
unfolding count_all
delta_of es = count_all es (record {
  processed = length es;
  valid = 0;
  invalid = 0;
  risky = 0;
  unknown = 0;
  disposable = 0;
})

-- an email with the error of its `Validate`, which is an error of the context
abbrev pub Validated : Type 0
Validated = Email × Option CtxError

unfoldable pub first_error : List Validated → Option CtxError
first_error [] = none
first_error ((_, some err) ∷ vs) = some err
first_error ((_, none) ∷ vs) = first_error vs

-- `markJobFailed`, where `reached` tells whether the database takes the status
unfoldable pub mark_job_failed : ℕ → (reached : Bool) → (phase cause : Text) → Job → Job
unfolding update_status set_last_error
mark_job_failed now reached phase cause j =
    if reached then set_last_error now phase cause (update_status now failed j) else j

-- what the statements of a task return
pub record Database : Type 0 where
  pub now : ℕ
  pub insert_err : Option Text
  pub progress_err : Option Text
  pub reached : Bool

pub data TaskError : Type 0 where
  context : CtxError → TaskError
  storage : Text → TaskError

pub record Handled : Type 0 where
  pub inserted : List EmailResult
  pub job : Job
  pub err : Option TaskError

-- the third phase
unfoldable pub persist : Database → List Email → Job → Handled
unfolding record_of delta_of mark_job_failed increment_progress
persist db es j =
    let records = map record_of es in
    elim db.insert_err [
      | some err ↦ record {
        inserted = [];
        job = mark_job_failed db.now db.reached (lit "bulk_insert") err j;
        err = some (storage err);
      }
      | none ↦ elim db.progress_err [
        | some err ↦ record {
          inserted = records;
          job = mark_job_failed db.now db.reached (lit "increment_progress") err j;
          err = some (storage err);
        }
        | none ↦ record {
          inserted = records;
          job = increment_progress db.now (delta_of es) j;
          err = none;
        }
      ]
    ]

-- the handler, from the validated emails of the task
unfoldable pub handle : Database → List Validated → Job → Handled
unfolding first_error persist
handle db [] j = record { inserted = []; job = j; err = none }
handle db (v ∷ vs) j = elim (first_error (v ∷ vs)) [
  | some err ↦ record { inserted = []; job = j; err = some (context err) }
  | none ↦ persist db (map (λ w. w.0) (v ∷ vs)) j
]
