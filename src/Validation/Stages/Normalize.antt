-- ===== src/Validation/Stages/Normalize.antt =====
-- internal/validation/stages/normalize.go. NFC and IDNA are packages of golang.org/x: parameters.
use mailclear.Base.{
  ℕ, suc, Bool, ◌||◌, ◌∷◌, ◌++◌, Option, none, some, ◌==◌, if◌then◌else◌, length, take, drop,
}
use mailclear.Text.{
  Text, Unicode, lit, to_lower, trim_space, is_empty, text_eq, last_index_byte, index_byte,
  remove_byte,
}
use mailclear.Validation.Types.{Email}

-- `norm.NFC.String`, and `idna.Lookup.ToASCII`, whose error is `none`
pub record Names : Type 0 where
  pub nfc : Text → Text
  pub to_ascii : Text → Option Text

-- `local[:plus]`, where there is a `+`
unfoldable pub cut_tag : Text → Text
cut_tag local = elim (index_byte local b'+') [ some plus ↦ take plus local | none ↦ local ]

-- `domain == "gmail.com" || domain == "googlemail.com"`
unfoldable pub is_gmail : Text → Bool
is_gmail domain = text_eq domain (lit "gmail.com") || text_eq domain (lit "googlemail.com")

-- the local part and the domain, after the `switch` on the domain
unfoldable pub canonical_parts : Text → Text → Text × Text
unfolding cut_tag is_gmail
canonical_parts local domain =
    if is_gmail domain then (remove_byte b'.' (cut_tag local), lit "gmail.com") else (local, domain)

unfoldable pub ascii_domain : Names → Text → Text
ascii_domain n domain = elim (n.to_ascii domain) [ some asc ↦ asc | none ↦ domain ]

-- the body below the test of `at`
unfoldable pub set_parts : Text × Text → Email → Email
set_parts (local, domain) e = record e {
  local_part = local;
  domain = domain;
  normalized = local ++ (b'@' ∷ domain);
}

-- `at <= 0 || at == len(raw)-1`
abbrev pub is_edge : ℕ → Text → Bool
is_edge at raw = at == 0 || suc at == length raw

unfoldable pub split_parts : Names → Text → Email → Email
unfolding set_parts canonical_parts ascii_domain
split_parts n raw e = elim (last_index_byte raw b'@') [
  | none ↦ record e { normalized = raw }
  | some at ↦
      if is_edge at raw
      then record e { normalized = raw }
      else set_parts (canonical_parts (take at raw) (ascii_domain n (drop (suc at) raw))) e
]

-- `Normalize.Run`
unfoldable pub normalize : Unicode → Names → Email → Email × Option Text
unfolding split_parts
normalize u n e =
    let raw = trim_space u e.original in
    if is_empty raw
    then (e, some (lit "vazio"))
    else (split_parts n (to_lower u (n.nfc raw)) e, none)
