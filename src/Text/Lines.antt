-- ===== src/Text/Lines.antt =====
-- The loop over the lines of an embedded list, which five loaders of the program share:
-- `for _, line := range strings.Split(raw, "\n")`, trimming, and skipping blanks and comments.
use mailclear.Base.{Bool, ◌||◌, List, [], ◌∷◌, if◌then◌else◌, All, ◌≡◌, false, arith}
use mailclear.Text.Defs.{Text, Unicode, to_lower, trim_space, is_empty, has_prefix, split}

-- `line == "" || strings.HasPrefix(line, "#")`
abbrev pub is_skipped : Text → Bool
is_skipped line = is_empty line || has_prefix line (b'#' ∷ [])

module _ (u : Unicode) where
  -- the entries among given lines, in order
  unfoldable pub entries_of : List Text → List Text
  entries_of [] = []
  entries_of (raw ∷ lines) =
      let line = trim_space u (to_lower u raw) in
      let rest = entries_of lines in if is_skipped line then rest else line ∷ rest

  unfoldable pub entries : Text → List Text
  entries raw = entries_of (split 10 raw)

  entries_of-kept : (lines : List Text) → All (λ e. is_skipped e ≡ false) (entries_of lines)
  unfolding entries_of
  entries_of-kept [] = tt
  entries_of-kept (raw ∷ lines) = ground (arith, entries_of-kept lines)

  -- no entry is blank or a comment
  pub entries-kept : (raw : Text) → All (λ e. is_skipped e ≡ false) (entries raw)
  unfolding entries
  entries-kept raw = entries_of-kept (split 10 raw)
