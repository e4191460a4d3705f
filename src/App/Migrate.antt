-- ===== src/App/Migrate.antt =====
-- cmd/migrate/main.go. golang-migrate is a parameter, and so is what `fmt.Sscanf` reads for `%d`: `none`
-- leaves the variable as it was. `os.Exit` skips the deferred `Close`. The flag is read already.
use mailclear.Base.{
  ℕ, suc, ◌≡◌, refl, Bool, true, false, List, [], ◌∷◌, Option, none, some, if◌then◌else◌, arith,
}
use mailclear.Base.Int.{ℤ, pos, negsuc, pos_part, neg_part, sub_ℕ}
use mailclear.Text.{Text, lit, text_eq}

-- what a migration returns, where `no_change` is `ErrNoChange`
pub data Answer : Type 0 where
  done no_change : Answer
  failed : Text → Answer

-- what `Version` returns, where `nil_version` is `ErrNilVersion`
pub data Version : Type 0 where
  at : (version : ℕ) → (dirty : Bool) → Version
  nil_version : Version
  unknown : Text → Version

pub record Library : Type 0 where
  pub up : Answer
  pub steps : ℤ → Answer
  pub drop : Answer
  pub force : ℤ → Answer
  pub version : Version

pub data Call : Type 0 where
  up drop version : Call
  steps force : ℤ → Call

-- the calls of the library, the exit code, and whether the library was closed
pub record Ended : Type 0 where
  pub calls : List Call
  pub code : ℕ
  pub closed : Bool

-- `exitErr`
unfoldable pub exit_err : List Call → Ended
exit_err calls = record { calls = calls; code = 1; closed = false }

unfoldable pub return_ok : List Call → Ended
return_ok calls = record { calls = calls; code = 0; closed = true }

-- the end of `main`, with the error of the command
unfoldable pub conclude : Call → Answer → Ended
unfolding exit_err return_ok
conclude c done = return_ok (c ∷ [])
conclude c no_change = return_ok (c ∷ [])
conclude c (failed _) = exit_err (c ∷ [])

-- `-n`
unfoldable pub negate : ℤ → ℤ
negate z = sub_ℕ (neg_part z) (pos_part z)

-- `args[0]`, or `up`
unfoldable pub command : List Text → Text
command [] = lit "up"
command (cmd ∷ _) = cmd

module _ (scan : Text → Option ℤ) (m : Library) where
  -- the steps that `down` goes back, 1 where no number is given
  unfoldable pub down_steps : List Text → ℤ
  down_steps (_ ∷ n ∷ _) = elim (scan n) [ none ↦ pos 1 | some z ↦ z ]
  down_steps _ = pos 1

  unfoldable pub run_down : List Text → Ended
  unfolding negate down_steps conclude
  run_down args = let n = negate (down_steps args) in conclude (steps n) (m.steps n)

  unfoldable pub run_force : List Text → Ended
  unfolding exit_err conclude
  run_force (_ ∷ v ∷ _) =
      let z : ℤ = elim (scan v) [ none ↦ pos 0 | some z ↦ z ] in conclude (force z) (m.force z)
  run_force _ = exit_err []

  unfoldable pub run_version : Version → Ended
  unfolding exit_err return_ok
  run_version (unknown _) = exit_err (version ∷ [])
  run_version _ = return_ok (version ∷ [])

  -- the `switch`
  unfoldable pub dispatch : (cmd : Text) → (args : List Text) → Ended
  unfolding conclude run_down run_force run_version exit_err
  dispatch cmd args =
      if text_eq cmd (lit "up")
      then conclude up m.up
      else if text_eq cmd (lit "down")
      then run_down args
      else if text_eq cmd (lit "drop")
      then conclude drop m.drop
      else if text_eq cmd (lit "force")
      then run_force args
      else if text_eq cmd (lit "version")
      then run_version m.version
      else exit_err []

  -- `main`, with the errors of `filepath.Abs` and of `migrate.New`
  unfoldable pub main : (abs_err init_err : Option Text) → (args : List Text) → Ended
  unfolding dispatch command exit_err
  main (some _) init_err args = exit_err []
  main none (some _) args = exit_err []
  main none none args = dispatch (command args) args

  -- whether the library takes a call without an error that counts
  unfoldable pub succeeds : Answer → Bool
  succeeds (failed _) = false
  succeeds _ = true

  unfoldable pub accepts : Call → Bool
  unfolding succeeds
  accepts up = succeeds m.up
  accepts drop = succeeds m.drop
  accepts (steps n) = succeeds (m.steps n)
  accepts (force v) = succeeds (m.force v)
  accepts version = elim m.version [ unknown _ ↦ false | _ ↦ true ]

  -- how a run of the command ends: with a call that was accepted, or refused, or with none
  pub data Ends : Ended → Type 0 where
    called :
        (c : Call) → accepts c ≡ true → Ends (record { calls = c ∷ []; code = 0; closed = true })
    refused :
        (c : Call) → accepts c ≡ false → Ends (record { calls = c ∷ []; code = 1; closed = false })
    uncalled : Ends (record { calls = []; code = 1; closed = false })

  conclude-Ends : (c : Call) (a : Answer) → accepts c ≡ succeeds a → Ends (conclude c a)
  unfolding conclude succeeds return_ok exit_err
  conclude-Ends c done same = called c same
  conclude-Ends c no_change same = called c same
  conclude-Ends c (failed _) same = refused c same

  run_force-Ends : (args : List Text) → Ends (run_force args)
  unfolding run_force exit_err accepts
  run_force-Ends [] = uncalled
  run_force-Ends (_ ∷ []) = uncalled
  run_force-Ends (_ ∷ v ∷ _) = conclude-Ends _ _ refl

  run_version-Ends : (v : Version) → m.version ≡ v → Ends (run_version v)
  unfolding run_version exit_err return_ok accepts
  run_version-Ends (at n d) same = called version (ground arith)
  run_version-Ends nil_version same = called version (ground arith)
  run_version-Ends (unknown e) same = refused version (ground arith)

  if-Ends : (b : Bool) (x y : Ended) → Ends x → Ends y → Ends (if b then x else y)
  if-Ends true x y p q = p
  if-Ends false x y p q = q

  -- However the command is called, it ends in one of three ways: it makes one call of the library, which
  -- succeeds or has nothing to do, closes it and exits with 0; it makes one call, which fails, and exits
  -- with 1; or it makes no call and exits with 1.
  pub main-Ends :
      (abs_err init_err : Option Text) (args : List Text) → Ends (main abs_err init_err args)
  unfolding main dispatch run_down exit_err accepts
  main-Ends (some _) init_err args = uncalled
  main-Ends none (some _) args = uncalled
  main-Ends none none args = if-Ends _ _ _ (conclude-Ends up m.up refl) (
      if-Ends _ _ _ (conclude-Ends (steps (negate (down_steps args))) _ refl) (
        if-Ends _ _ _ (conclude-Ends drop m.drop refl) (
          if-Ends _ _ _ (run_force-Ends args)
            (if-Ends _ _ _ (run_version-Ends m.version refl) uncalled))))

  -- With a negative number of steps, `down` migrates up.
  pub down-up :
      (n : Text) (rest : List Text) (k : ℕ)
      → scan n ≡ some (negsuc k)
      → (main none none (lit "down" ∷ n ∷ rest)).calls ≡ steps (pos (suc k)) ∷ []
  unfolding main dispatch run_down conclude negate down_steps command text_eq lit return_ok exit_err
  down-up n rest k e = ground arith
