-- ===== src/Lookups/Classifier.antt =====
-- internal/validation/domain/classifier.go.
use mailclear.Base.{Bool, ◌||◌, List, [], ◌∷◌, if◌then◌else◌}
use mailclear.Text.{
  Text, Unicode, lit, to_lower, trim_space, split, member, insert, has_suffix, contains,
}
use mailclear.Text.Lines.{is_skipped}

pub record Classifier : Type 0 where
  pub free : List Text

-- the strings that `Classify` returns
pub data Label : Type 0 where
  free educational government corporate : Label

module _ (u : Unicode) where
  -- the loop of `load` over the lines
  unfoldable pub add_lines : List Text → List Text → List Text
  add_lines [] set = set
  add_lines (raw ∷ lines) set =
      let line = trim_space u (to_lower u raw) in
      add_lines lines (if is_skipped line then set else insert line set)

  -- `NewClassifier` and `load`, from the text of the embedded list
  unfoldable pub new : Text → Classifier
  new free_providers = record { free = add_lines (split 10 free_providers) [] }

  unfoldable pub is_free : Classifier → Text → Bool
  is_free c domain = member (to_lower u domain) c.free

  unfoldable pub classify : Classifier → Text → Label
  unfolding is_free
  classify c domain =
      let d = to_lower u domain in
      if is_free c d
      then Label.free
      else if has_suffix d (lit ".edu") || (has_suffix d (lit ".edu.br") || contains d (lit ".ac."))
      then educational
      else if has_suffix d (lit ".gov")
          || (has_suffix d (lit ".gov.br")
              || (has_suffix d (lit ".gob.") || has_suffix d (lit ".mil")))
      then government
      else corporate
