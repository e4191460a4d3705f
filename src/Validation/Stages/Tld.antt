-- ===== src/Validation/Stages/Tld.antt =====
-- internal/validation/stages/tld.go. The set is loaded once, from the embedded list.
use mailclear.Base.{suc, List, [], ◌∷◌, ◌++◌, Option, none, some, if◌then◌else◌, drop}
use mailclear.Text.{
  Text, Unicode, lit, to_lower, trim_space, is_empty, split, member, insert, last_index_byte,
}
use mailclear.Text.Lines.{is_skipped}
use mailclear.Validation.Types.{Email, add_reason}

module _ (u : Unicode) where
  -- the loop of `load` over the lines
  unfoldable pub add_lines : List Text → List Text → List Text
  add_lines [] set = set
  add_lines (raw ∷ lines) set =
      let line = trim_space u (to_lower u raw) in
      add_lines lines (if is_skipped line then set else insert line set)

  -- `load`, from the text of the embedded list
  unfoldable pub load : Text → List Text
  load tlds = add_lines (split 10 tlds) []

-- `TLD.Run`, with the loaded set
unfoldable pub check_tld : List Text → Email → Email × Option Text
check_tld set e = if is_empty e.domain then (e, none) else elim (last_index_byte e.domain b'.') [
  | none ↦ (add_reason (lit "INVALID_TLD") (lit "Domínio sem TLD") e, some (lit "sem tld"))
  | some dot ↦
      let tld = drop (suc dot) e.domain in
      if member tld set then (e, none) else (
        add_reason (lit "INVALID_TLD") (lit "TLD desconhecido: " ++ tld) e,
        some (lit "tld inválido"),
      )
]
