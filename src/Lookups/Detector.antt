-- ===== src/Lookups/Detector.antt =====
-- internal/validation/role/detector.go.
use mailclear.Base.{Bool, List, [], ◌∷◌, if◌then◌else◌}
use mailclear.Text.{Text, Unicode, to_lower, trim_space, is_empty, split, member, insert}
use mailclear.Text.Lines.{is_skipped}

pub record Detector : Type 0 where
  pub set : List Text

module _ (u : Unicode) where
  -- the loop of `LoadString` over the lines
  unfoldable pub add_lines : List Text → List Text → List Text
  add_lines [] new_set = new_set
  add_lines (raw ∷ lines) new_set =
      let line = trim_space u (to_lower u raw) in
      add_lines lines (if is_skipped line then new_set else insert line new_set)

  unfoldable pub load_string : Text → Detector → Detector
  load_string raw d = record d { set = add_lines (split 10 raw) [] }

  -- the loop of `LoadList`
  unfoldable pub add_prefixes : List Text → List Text → List Text
  add_prefixes [] new_set = new_set
  add_prefixes (raw ∷ prefixes) new_set =
      let p = trim_space u (to_lower u raw) in
      add_prefixes prefixes (if is_empty p then new_set else insert p new_set)

  unfoldable pub load_list : List Text → Detector → Detector
  load_list prefixes d = record d { set = add_prefixes prefixes [] }

  -- `New`, from the text of the embedded list
  unfoldable pub new : Text → Detector
  unfolding load_string
  new role_prefixes = load_string role_prefixes (record { set = [] })

  unfoldable pub is_role : Detector → Text → Bool
  is_role d local = member (to_lower u (trim_space u local)) d.set
