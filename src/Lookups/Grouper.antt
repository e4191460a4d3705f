-- ===== src/Lookups/Grouper.antt =====
-- internal/validation/domain/grouper.go: emails by their domain in lower case.
use mailclear.Base.{List, [], ◌∷◌, ◌++◌, if◌then◌else◌}
use mailclear.Text.{Text, Unicode, lit, to_lower, is_empty, text_eq}
use mailclear.Validation.Types.{Email}

-- a map from a domain to its emails
abbrev pub Groups : Type 0
Groups = List (Text × List Email)

-- `groups[d] = append(groups[d], e)`
unfoldable pub group_append : Text → Email → Groups → Groups
group_append d e [] = (d, e ∷ []) ∷ []
group_append d e ((k, es) ∷ g) =
    if text_eq k d then (k, es ++ (e ∷ [])) ∷ g else (k, es) ∷ group_append d e g

unfoldable pub group_key : Unicode → Email → Text
group_key u e = let d = to_lower u e.domain in if is_empty d then lit "__no_domain__" else d

unfoldable pub group_from : Unicode → List Email → Groups → Groups
group_from u [] g = g
group_from u (e ∷ es) g = group_from u es (group_append (group_key u e) e g)

unfoldable pub group_by_domain : Unicode → List Email → Groups
unfolding group_from
group_by_domain u emails = group_from u emails []
