-- ===== src/Tests/Typos.antt =====
-- The edit distance and the corrector.
use mailclear.Base.{ℕ, ◌≡◌, ◌≤◌, some, length, Gives}
use mailclear.Text.{Text, lit, to_lower, trim_space}
use mailclear.Typo.Distance.{damerau_levenshtein}
use mailclear.Typo.Edits.{Edits}
use mailclear.Typo.Shortest.{damerau_levenshtein_shortest}
use mailclear.Typo.Corrector.{load, suggest}
use mailclear.Typo.Suggest.{IsSuggestion}
use mailclear.Typo.Buckets.{suggest-IsSuggestion}
use mailclear.Tests.Inputs.{ascii, common}

abbrev gmial : Text
gmial = lit "gmial.com"

abbrev gmail : Text
gmail = lit "gmail.com"

damerau_levenshtein_shortest_example :
    (d : ℕ) × (damerau_levenshtein gmial gmail ≡ some d)
    × Edits gmial gmail (length gmial) (length gmail) d
    × ((n : ℕ) → Edits gmial gmail (length gmial) (length gmail) n → d ≤ n)
damerau_levenshtein_shortest_example = damerau_levenshtein_shortest gmial gmail

suggest-IsSuggestion_example :
    Gives
      (IsSuggestion (to_lower ascii (trim_space ascii gmial)) 2 (load ascii common))
      (suggest ascii (load ascii common) gmial 2)
suggest-IsSuggestion_example = suggest-IsSuggestion ascii common gmial 2
