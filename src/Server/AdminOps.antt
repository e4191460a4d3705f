-- ===== src/Server/AdminOps.antt =====
-- internal/server/handlers/admin_ops.go. D-Bus and journalctl are parameters: what they return is an
-- argument.
pub mod Guards
use mailclear.Base.{
  ℕ, suc, Bool, true, false, ◌&&◌, List, [], ◌∷◌, ◌++◌, Option, none, some, ltb, leb, if◌then◌else◌,
  ◌≡◌, refl, ◌≤◌, arith,
}
use mailclear.Base.Int.{ℤ, pos, negsuc}
use mailclear.Text.{Text, lit, text_eq, decimal}
use mailclear.Jobs.Repo.{Job, force_fail}
use mailclear.Server.Http.{Reply, refuse, answer, atoi}

unfoldable pub unit_for : Text → Option Text
unit_for svc =
    if text_eq svc (lit "api")
    then some (lit "mailclear-api.service")
    else if text_eq svc (lit "worker")
    then some (lit "mailclear-worker.service")
    else none

-- what the message bus does: the connection fails, `RestartUnitContext` fails, the context ends before
-- the job has a result, or it has one
pub data Bus : Type 0 where
  down : Text → Bus
  failed : Text → Bus
  late : Text → Bus
  done : Text → Bus

-- `restartUnit`, over an open connection: a result or an error
unfoldable pub restart_unit : Bus → Option Text
restart_unit (done result) = some result
restart_unit _ = none

unfoldable pub is_down : Bus → Bool
is_down (down _) = true
is_down _ = false

-- the reply to a restart, and whether one goes on after it
pub data Restart : Type 0 where
  scheduled : (unit : Text) → Restart
  restarted : (unit result : Text) → Restart

-- `RestartService`
unfoldable pub restart_service : (self_unit : Text) → (service : Text) → Bus → Reply Restart
unfolding unit_for restart_unit is_down
restart_service self_unit service bus = elim (unit_for service) [
  | none ↦ refuse 400 (lit "BAD_SERVICE")
  | some unit ↦
      if text_eq unit self_unit
      then answer 202 (scheduled unit)
      else if is_down bus
      then refuse 500 (lit "DBUS_CONNECT")
      else elim (restart_unit bus) [
        | none ↦ refuse 500 (lit "RESTART_FAILED")
        | some result ↦ answer 200 (restarted unit result)
      ]
]

-- `deferredRestart`, after the reply: the result of the restart, where the log has its errors
unfoldable pub deferred_restart : Bus → Option Text
unfolding is_down restart_unit
deferred_restart bus = if is_down bus then none else restart_unit bus

-- the number of lines of `Logs`
unfoldable pub log_lines : Text → ℕ
unfolding atoi
log_lines s = elim (atoi s) [
  | some (pos n) ↦ if ltb 0 n && leb n 5000 then n else 200
  | some (negsuc _) ↦ 200
  | none ↦ 200
]

-- the arguments that `Logs` gives to journalctl
unfoldable pub log_args : (unit : Text) → ℕ → List Text
log_args unit lines =
    lit "-u" ∷ unit ∷ lit "-n" ∷ decimal lines ∷ lit "--no-pager" ∷ lit "-o" ∷ lit "cat" ∷ []

-- `Logs`, where `journal` gives the output of a command, or `none` where it fails
unfoldable pub logs : (journal : List Text → Option Text) → (service lines : Text) → Reply Text
unfolding unit_for log_lines log_args
logs journal service lines = elim (unit_for service) [
  | none ↦ refuse 400 (lit "BAD_SERVICE")
  | some unit ↦ elim (journal (log_args unit (log_lines lines))) [
    | none ↦ refuse 500 (lit "JOURNALCTL_ERROR")
    | some out ↦ answer 200 out
  ]
]

-- the loop of `LogsStream`: each line is an event, up to the first write that fails
unfoldable pub events : (broken : ℕ → Bool) → (k : ℕ) → List Text → Text
events broken k [] = []
events broken k (line ∷ lines) =
    let rest = events broken (suc k) lines in
    if broken k then [] else lit "data: " ++ (line ++ (lit "\n\n" ++ rest))

-- the arguments that `LogsStream` gives to journalctl
unfoldable pub stream_args : (unit : Text) → List Text
stream_args unit =
    lit "-u" ∷ unit ∷ lit "-n" ∷ lit "50" ∷ lit "-f" ∷ lit "--no-pager" ∷ lit "-o" ∷ lit "cat" ∷ []

-- `LogsStream`: whether the writer can flush, the errors of the pipe and of the start, and the lines that
-- the command prints before it or the request ends
unfoldable pub logs_stream :
    (flusher : Bool) (pipe_err start_err : Option Text)
    → (journal : List Text → List Text) → (broken : ℕ → Bool) → (service : Text) → Reply Text
unfolding unit_for events stream_args
logs_stream flusher pipe_err start_err journal broken service = elim (unit_for service) [
  | none ↦ refuse 400 (lit "BAD_SERVICE")
  | some unit ↦
      if flusher
      then elim pipe_err [
        | some _ ↦ refuse 500 (lit "PIPE_ERROR")
        | none ↦ elim start_err [
          | some _ ↦ refuse 500 (lit "JOURNAL_START")
          | none ↦ answer 200 (events broken 0 (journal (stream_args unit)))
        ]
      ]
      else refuse 500 (lit "NO_FLUSH")
]

-- `ForceFail`, on the row with the id if there is one
unfoldable pub force_fail_handler :
    (parse_id : Text → Option Text)
    → (db_err : Option Text) → (now : ℕ) → Text
    → Option Job
    → Reply Text × Option Job
unfolding force_fail
force_fail_handler parse_id db_err now id row = elim (parse_id id) [
  | none ↦ (refuse 400 (lit "BAD_ID"), row)
  | some job ↦ elim db_err [
    | some _ ↦ (refuse 422 (lit "FORCE_FAIL_ERROR"), row)
    | none ↦ elim row [
      | none ↦ (refuse 422 (lit "FORCE_FAIL_ERROR"), none)
      | some j ↦
          let (ok, j') = force_fail now (lit "manual force-fail via dashboard") j in
          if ok then (answer 200 job, some j') else (refuse 422 (lit "FORCE_FAIL_ERROR"), some j')
    ]
  ]
]
