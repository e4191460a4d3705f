-- ===== src/Importer/Reader/Columns.antt =====
-- Which cells `Each` of internal/importer/csv.go takes for emails.
use mathlib.Core.List.{append_assoc, append-nil}
use mailclear.Base.{
  ℕ, suc, ◌≡◌, refl, ap, sym, true, false, List, [], ◌∷◌, ◌++◌, none, some, if◌then◌else◌, All,
  arith,
}
use mailclear.Text.{Text, Unicode, is_empty, trim_space}
use mailclear.Importer.Reader.{
  Read, row, broken, has_at, at_column, pick_email_column, is_header, email_at, each, eof,
}

-- the first cells of the rows, trimmed, where they are not blank
abbrev pub first_cells : Unicode → List Read → List Text
first_cells u [] = []
first_cells u (broken ∷ rest) = first_cells u rest
first_cells u (row [] ∷ rest) = first_cells u rest
first_cells u (row (v ∷ vs) ∷ rest) =
    if is_empty (trim_space u v) then first_cells u rest else trim_space u v ∷ first_cells u rest

at_column-none : (cells : List Text) → All (λ v. has_at v ≡ false) cells → at_column cells ≡ none
unfolding at_column
at_column-none [] h = refl
at_column-none (v ∷ vs) h = let ih = at_column-none vs h.1 in ground (arith, h.0)

each-first_cells :
    (u : Unicode) (turn : ℕ) (out : List Text) (rows : List Read)
    → each u (λ _. none) (λ _. false) turn (some 0) out rows ≡ (out ++ first_cells u rows, eof)
unfolding each email_at
each-first_cells u turn out [] = ap (λ l. (l, eof)) (sym (append-nil out))
each-first_cells u turn out (broken ∷ rest) = each-first_cells u (suc turn) out rest
each-first_cells u turn out (row [] ∷ rest) = each-first_cells u (suc turn) out rest
each-first_cells u turn out (row (v ∷ vs) ∷ rest) =
    let skip = each-first_cells u (suc turn) out rest in
    let hand = each-first_cells u (suc turn) (out ++ (trim_space u v ∷ [])) rest in
    let shape = append_assoc out (trim_space u v ∷ []) (first_cells u rest) in ground arith

-- After a header none of whose cells has an '@', the emails are the first cells of the later rows,
-- whatever column the header names, where no callback fails and the context lives.
pub each-header :
    (u : Unicode) (v : Text) (vs : List Text) (rows : List Read)
    → is_header u (v ∷ vs) ≡ true
    → All (λ w. has_at w ≡ false) (v ∷ vs)
    → each u (λ _. none) (λ _. false) 0 none [] (row (v ∷ vs) ∷ rows) ≡ (first_cells u rows, eof)
unfolding each pick_email_column
each-header u v vs rows header no_at =
    let col = at_column-none (v ∷ vs) no_at in
    let rest = each-first_cells u 1 [] rows in ground arith
