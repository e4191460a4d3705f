-- ===== src/Validation/Stages/Syntax.antt =====
-- internal/validation/stages/syntax.go. `mail.ParseAddress` is a parameter: the address of a parsed
-- text, or `none` for its error.
use mailclear.Base.{
  ℕ, suc, Bool, true, false, ◌&&◌, ◌||◌, not, [], ◌∷◌, Option, none, some, ltb, leb, ◌==◌,
  if◌then◌else◌, length, take, drop,
}
use mailclear.Text.{
  Text, Unicode, lit, to_lower, trim_space, is_empty, last_index_byte, index_byte, has_prefix,
  has_suffix, contains,
}
use mailclear.Validation.Types.{Email, add_reason}
use mailclear.Validation.Stages.Normalize.{is_edge}

abbrev pub max_local : ℕ
max_local = 64

abbrev pub max_domain : ℕ
max_domain = 253

abbrev pub max_overall : ℕ
max_overall = 320

-- `[A-Za-z]`
unfoldable pub is_letter : ℕ → Bool
is_letter c = (leb b'A' c && leb c b'Z') || (leb b'a' c && leb c b'z')

-- `[A-Za-z0-9.\-]`
unfoldable pub is_domain_char : ℕ → Bool
unfolding is_letter
is_domain_char c = is_letter c || ((leb b'0' c && leb c b'9') || (c == b'.' || c == b'-'))

-- `[A-Za-z0-9._%+\-]`
unfoldable pub is_local_char : ℕ → Bool
unfolding is_domain_char
is_local_char c = is_domain_char c || (c == b'_' || (c == b'%' || c == b'+'))

unfoldable pub all_bytes : (ℕ → Bool) → Text → Bool
all_bytes p [] = true
all_bytes p (c ∷ s) = p c && all_bytes p s

-- `[A-Za-z0-9.\-]+\.[A-Za-z]{2,63}`: a letter is no dot, so the last dot is the one that matches
unfoldable pub match_domain : Text → Bool
match_domain d = elim (last_index_byte d b'.') [
  | none ↦ false
  | some dot ↦
      let name = take dot d in
      let tld = drop (suc dot) d in
      (not (is_empty name) && all_bytes is_domain_char name)
      && (all_bytes is_letter tld && (leb 2 (length tld) && leb (length tld) 63))
]

-- `emailFastPath.MatchString`: no class holds `@`, so the first `@` is the one that matches
unfoldable pub fast_path : Text → Bool
unfolding match_domain
fast_path s = elim (index_byte s b'@') [
  | none ↦ false
  | some at ↦
      let local = take at s in
      (not (is_empty local) && all_bytes is_local_char local) && match_domain (drop (suc at) s)
]

-- `e.AddReason(code, msg)` and the error that is returned
abbrev pub reject : Text → Text → Text → Email → Email × Option Text
reject code msg err e = (add_reason code msg e, some err)

-- the first and last tests of `checkParts` on the local part
unfoldable pub bad_dots : Text → Bool
bad_dots local =
    has_prefix local (b'.' ∷ [])
    || (has_suffix local (b'.' ∷ []) || contains local (b'.' ∷ b'.' ∷ []))

-- the end of `checkParts`: the fields that `Normalize` left empty
unfoldable pub fill_parts : Text → Text → Email → Email
fill_parts local domain e = record e {
  local_part = if is_empty e.local_part then local else e.local_part;
  domain = if is_empty e.domain then domain else e.domain;
}

-- `checkParts`, below the test of `at`
unfoldable pub check_split : Text → Text → Email → Email × Option Text
unfolding bad_dots fill_parts
check_split local domain e =
    if ltb max_local (length local)
    then reject (lit "LOCAL_TOO_LONG") (lit "Local-part excede 64 caracteres")
        (lit "local-part muito longo") e
    else if ltb max_domain (length domain)
    then reject (lit "DOMAIN_TOO_LONG") (lit "Domínio excede 253 caracteres")
        (lit "domain muito longo") e
    else if not (contains domain (b'.' ∷ []))
    then reject (lit "DOMAIN_NO_DOT") (lit "Domínio sem ponto") (lit "domain sem ponto") e
    else if bad_dots local
    then reject (lit "INVALID_SYNTAX") (lit "Pontos consecutivos ou nas pontas do local-part")
        (lit "syntax") e
    else (fill_parts local domain e, none)

unfoldable pub check_parts : Email → Text → Email × Option Text
unfolding check_split
check_parts e addr = elim (last_index_byte addr b'@') [
  | none ↦ reject (lit "INVALID_SYNTAX") (lit "Falta local-part ou domínio") (lit "syntax") e
  | some at ↦
      if is_edge at addr
      then reject (lit "INVALID_SYNTAX") (lit "Falta local-part ou domínio") (lit "syntax") e
      else check_split (take at addr) (drop (suc at) addr) e
]

module _ (u : Unicode) (parse_address : Text → Option Text) where
  -- what follows the test of the length
  unfoldable pub check_address : Text → Email → Email × Option Text
  unfolding check_parts fast_path
  check_address s e = if fast_path s then check_parts e s else elim (parse_address s) [
    | none ↦ reject (lit "INVALID_SYNTAX") (lit "Formato de email inválido") (lit "syntax") e
    | some addr ↦ check_parts (record e { normalized = to_lower u addr }) (to_lower u addr)
  ]

  -- `Syntax.Run`
  unfoldable pub syntax : Email → Email × Option Text
  unfolding check_address
  syntax e =
      let s = if is_empty e.normalized then trim_space u e.original else e.normalized in
      if is_empty s
      then reject (lit "EMPTY") (lit "Email vazio") (lit "vazio") e
      else if ltb max_overall (length s)
      then reject (lit "TOO_LONG") (lit "Email excede 320 caracteres") (lit "muito longo") e
      else check_address s e
