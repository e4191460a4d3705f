-- ===== src/Validation/Stages/Signals.antt =====
-- internal/validation/stages/typo.go, disposable.go and role.go: stages that only annotate. A nil
-- corrector, registry or detector is `none`.
use mailclear.Base.{ℕ, true, ◌∷◌, ◌++◌, Option, none, some, ◌==◌, if◌then◌else◌}
use mailclear.Text.{Text, Unicode, lit, is_empty}
use mailclear.Typo.Corrector.{Corrector, suggest}
use mailclear.Lookups.Registry.{Registry, has}
use mailclear.Lookups.Detector.{Detector, is_role}
use mailclear.Validation.Types.{Classification, Email, add_reason}

-- `NewTypo` on the bound
unfoldable pub typo_bound : ℕ → ℕ
typo_bound max_dist = if max_dist == 0 then 2 else max_dist

-- `suggested != ""`
unfoldable pub note_typo : Text → Email → Email
note_typo suggested e =
    if is_empty suggested
    then e
    else add_reason (lit "TYPO") (lit "Domínio similar a " ++ suggested)
        (record e { suggested = e.local_part ++ (b'@' ∷ suggested) })

-- `Typo.Run`; `none` is a panic of the corrector
unfoldable pub typo : Unicode → Option Corrector → ℕ → Email → Option (Email × Option Text)
unfolding note_typo
typo u corrector max_dist e = if is_empty e.domain then some (e, none) else elim corrector [
  | none ↦ some (e, none)
  | some c ↦ elim (suggest u c e.domain max_dist) [
    | none ↦ none
    | some suggested ↦ some (note_typo suggested e, none)
  ]
]

-- `Disposable.Run`
unfoldable pub disposable : Unicode → Option Registry → Email → Email × Option Text
disposable u reg e = if is_empty e.domain then (e, none) else elim reg [
  | none ↦ (e, none)
  | some r ↦
      if has u r e.domain
      then (
        add_reason (lit "DISPOSABLE") (lit "Domínio descartável conhecido")
            (record e { is_disposable = true }),
        none,
      )
      else (e, none)
]

-- `Role.Run`
unfoldable pub role : Unicode → Option Detector → Email → Email × Option Text
role u det e = if is_empty e.local_part then (e, none) else elim det [
  | none ↦ (e, none)
  | some d ↦
      if is_role u d e.local_part
      then (
        add_reason (lit "ROLE") (lit "Conta genérica (role): " ++ e.local_part)
            (record e { is_role = true; classification = Classification.role }),
        none,
      )
      else (e, none)
]
