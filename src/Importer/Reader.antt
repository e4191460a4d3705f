-- ===== src/Importer/Reader.antt =====
-- internal/importer/csv.go and dedup.go. The rows come from encoding/csv, whose reader is a parameter:
-- each call of `Read` gives a row or an error that is not the end. `out` lists the emails handed to
-- `fn`, whose n-th call returns `answer n`.
pub mod Columns
use mailclear.Base.{
  ℕ, zero, suc, Bool, true, false, ◌||◌, List, [], ◌∷◌, ◌++◌, Option, none, some, length, leb,
  if◌then◌else◌, get_or,
}
use mailclear.Text.{
  Text, Unicode, lit, is_empty, text_eq, to_lower, trim_space, index_byte, member, insert,
}

pub data Read : Type 0 where
  row : List Text → Read
  broken : Read

-- `strings.Contains(v, "@")`
unfoldable pub has_at : Text → Bool
has_at v = elim (index_byte v b'@') [ none ↦ false | some _ ↦ true ]

-- `pickEmailColumn`, whose index of the first row with '@' is 0 where there is none
unfoldable pub at_column : List Text → Option ℕ
unfolding has_at
at_column [] = none
at_column (v ∷ vs) =
    let rest = at_column vs in
    if has_at v then some 0 else elim rest [ none ↦ none | some i ↦ some (suc i) ]

unfoldable pub pick_email_column : List Text → ℕ
unfolding at_column
pick_email_column cells = elim (at_column cells) [ none ↦ 0 | some i ↦ i ]

-- how `Each` ends: at the end of the rows, with the error of `fn`, or with that of the context
pub data End : Type 0 where
  eof : End
  fn_error : Text → End
  stopped : End

module _ (u : Unicode) where
  unfoldable pub is_header : List Text → Bool
  is_header [] = false
  is_header (v ∷ vs) =
      let lv = to_lower u (trim_space u v) in
      let rest = is_header vs in
      if text_eq lv (lit "email")
        || (text_eq lv (lit "e-mail") || (text_eq lv (lit "mail") || text_eq lv (lit "address")))
      then true
      else rest

  -- the trimmed cell, in the first column where the row is too short
  unfoldable pub email_at : ℕ → List Text → Text
  email_at col cells = trim_space u (get_or cells (if leb (length cells) col then 0 else col) [])

  -- what one row does: the column from then on, and the email to hand over
  unfoldable pub read_row : Option ℕ → List Text → Option ℕ × Option Text
  unfolding pick_email_column is_header email_at
  read_row column [] = (column, none)
  read_row none (v ∷ vs) =
      let col = pick_email_column (v ∷ vs) in
      let email = email_at col (v ∷ vs) in
      (some col, if is_header (v ∷ vs) then none else if is_empty email then none else some email)
  read_row (some col) (v ∷ vs) =
      let email = email_at col (v ∷ vs) in (some col, if is_empty email then none else some email)

  -- `Each` from a column and the emails handed over so far; `cancelled n` is the check of turn `n`
  unfoldable pub each :
      (answer : ℕ → Option Text) (cancelled : ℕ → Bool)
      → (turn : ℕ) → Option ℕ
      → List Text
      → List Read
      → List Text × End
  unfolding read_row
  each answer cancelled turn column out [] = (out, if cancelled turn then stopped else eof)
  each answer cancelled turn column out (broken ∷ rest) =
      let more = each answer cancelled (suc turn) column out rest in
      if cancelled turn then (out, stopped) else more
  each answer cancelled turn column out (row cells ∷ rest) =
      let (column', found) = read_row column cells in
      let skipped = each answer cancelled (suc turn) column' out rest in
      let handed : Text → List Text × End =
        λ email. each answer cancelled (suc turn) column' (out ++ (email ∷ [])) rest in
      if cancelled turn then (out, stopped) else elim found [
        | none ↦ skipped
        | some email ↦ elim (answer (length out)) [
          | some err ↦ (out ++ (email ∷ []), fn_error err)
          | none ↦ handed email
        ]
      ]

  -- `Dedup.SeenOrAdd` on the set of keys
  unfoldable pub seen_or_add : Text → List Text → Bool × List Text
  seen_or_add email seen =
      let key = to_lower u (trim_space u email) in
      if is_empty key then (true, seen) else (member key seen, insert key seen)
