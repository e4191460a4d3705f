-- ===== src/Server/AdminOps/Guards.antt =====
-- What the operations of internal/server/handlers/admin_ops.go let through.
use mailclear.Base.{
  ℕ, ◌≤◌, ◌≡◌, refl, ◌⊎◌, inl, inr, true, Option, some, Option-cases, Bool-cases, arith, List,
}
use mailclear.Text.{Text, lit, text_eq}
use mailclear.Jobs.Repo.{Job, failed, is_unlockable, force_fail}
use mailclear.Server.Http.{refuse, answer}
use mailclear.Server.AdminOps.{unit_for, log_lines, log_args, logs, force_fail_handler}

log_lines-between : (s : Text) → (1 ≤ log_lines s) × (log_lines s ≤ 5000)
unfolding log_lines
log_lines-between s = ground arith

unit_for-cases :
    (svc unit : Text)
    → unit_for svc ≡ some unit
    → (unit ≡ lit "mailclear-api.service") ⊎ (unit ≡ lit "mailclear-worker.service")
unfolding unit_for
unit_for-cases svc unit h = elim (Bool-cases (text_eq svc (lit "api"))) [
  | inl e ↦ inl (ground arith)
  | inr e ↦ elim (Bool-cases (text_eq svc (lit "worker"))) [
    | inl e' ↦ inr (ground arith)
    | inr e' ↦ absurd (ground arith)
  ]
]

-- Whatever the query says, a log that is answered is what journalctl printed for one of the two units of
-- the program, asked for from 1 to 5000 lines.
pub logs-guarded :
    (journal : List Text → Option Text) (service lines out : Text)
    → logs journal service lines ≡ answer 200 out
    → (unit : Text) × (n : ℕ) × ((unit ≡ lit "mailclear-api.service")
        ⊎ (unit ≡ lit "mailclear-worker.service"))
      × (1 ≤ n)
      × (n ≤ 5000)
      × (journal (log_args unit n) ≡ some out)
unfolding logs
logs-guarded journal service lines out h = elim (Option-cases (unit_for service)) [
  | inl unknown ↦ absurd (ground arith)
  | inr (unit, known) ↦
      let (low, high) = log_lines-between lines in
      elim (Option-cases (journal (log_args unit (log_lines lines)))) [
        | inl broken ↦ absurd (ground arith)
        | inr (text, printed) ↦
            (unit, log_lines lines, unit_for-cases service unit known, low, high, ground arith)
      ]
]

-- `ForceFail` either answers that the job failed, and then it has, with the reason as its last error, or
-- refuses and leaves the row as it is, which it does wherever the job is over.
pub force_fail_handler-cases :
    (parse_id : Text → Option Text) (db_err : Option Text) (now : ℕ) (id : Text) (j : Job)
    → let r = force_fail_handler parse_id db_err now id (some j) in
      ((job : Text) × (j' : Job) × (r ≡ (answer 200 job, some j'))
        × (j'.status ≡ failed)
        × (j'.last_error ≡ some (lit "force_fail", lit "manual force-fail via dashboard"))
        × (is_unlockable j.status ≡ true))
      ⊎ ((status : ℕ) × (code : Text) × (r ≡ (refuse status code, some j)))
unfolding force_fail_handler force_fail
force_fail_handler-cases parse_id db_err now id j = elim (Option-cases (parse_id id)) [
  | inl bad ↦ inr (400, lit "BAD_ID", ground arith)
  | inr (job, good) ↦ elim (Option-cases db_err) [
    | inr (x, err) ↦ inr (422, lit "FORCE_FAIL_ERROR", ground arith)
    | inl fine ↦ elim (Bool-cases (is_unlockable j.status)) [
      | inr over ↦ inr (422, lit "FORCE_FAIL_ERROR", ground arith)
      | inl going ↦ inl (
        job,
        record j {
          status = failed;
          finished_at = some now;
          updated_at = now;
          last_error = some (lit "force_fail", lit "manual force-fail via dashboard");
        },
        ground arith,
        refl,
        refl,
        going,
      )
    ]
  ]
]
