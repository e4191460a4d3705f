-- ===== src/Typo/Corrector.antt =====
-- internal/validation/typo/corrector.go. The outer `none` of a result is the panic of
-- `DamerauLevenshtein`; `""` is the empty text.
use mailclear.Base.{
  ℕ, ◌+◌, ◌-◌, ◌&&◌, not, List, [], ◌∷◌, ◌++◌, Option, some, none, ltb, leb, ◌==◌, if◌then◌else◌,
  length, ◌>>=◌,
}
use mailclear.Text.{Text, Unicode, to_lower, trim_space, is_empty, text_eq, member}
use mailclear.Text.Lines.{entries}
use mailclear.Typo.Distance.{damerau_levenshtein}

-- `bucket` is the map from a first byte to the domains that begin with it
pub record Corrector : Type 0 where
  pub domains : List Text
  pub bucket : List (ℕ × List Text)

-- `c.bucket[b] = append(c.bucket[b], d)`
unfoldable pub bucket_append : ℕ → Text → List (ℕ × List Text) → List (ℕ × List Text)
bucket_append b d [] = (b, d ∷ []) ∷ []
bucket_append b d ((k, ds) ∷ m) =
    if k == b then (k, ds ++ (d ∷ [])) ∷ m else (k, ds) ∷ bucket_append b d m

-- `c.bucket[b]`
unfoldable pub bucket_get : ℕ → List (ℕ × List Text) → Option (List Text)
bucket_get b [] = none
bucket_get b ((k, ds) ∷ m) = if k == b then some ds else bucket_get b m

unfoldable pub fill_buckets : List Text → List (ℕ × List Text) → List (ℕ × List Text)
fill_buckets [] m = m
fill_buckets ([] ∷ ds) m = fill_buckets ds m
fill_buckets ((b ∷ d) ∷ ds) m = fill_buckets ds (bucket_append b (b ∷ d) m)

-- `NewCorrector` and `load`, from the text of the embedded list
unfoldable pub load : Unicode → Text → Corrector
load u common_domains =
    let domains = entries u common_domains in
    record { domains = domains; bucket = fill_buckets domains [] }

-- `abs(x - y)` on lengths
unfoldable pub abs_diff : ℕ → ℕ → ℕ
abs_diff x y = (x - y) + (y - x)

-- `domain[0]`, or `none` where the text is empty
unfoldable pub first_byte : Text → Option ℕ
first_byte [] = none
first_byte (b ∷ _) = some b

-- `best` and `bestDist`
pub record Best : Type 0 where
  pub name : Text
  pub dist : ℕ

module _ (domain : Text) (max_dist : ℕ) where
  -- the body of the two loops over candidates
  unfoldable pub consider : Text → Best → Option Best
  consider d best =
      if ltb max_dist (abs_diff (length d) (length domain))
      then some best
      else (damerau_levenshtein domain d >>= λ dist.
          some (if ltb dist best.dist then record { name = d; dist = dist } else best))

  unfoldable pub scan : List Text → Best → Option Best
  scan [] best = some best
  scan (d ∷ ds) best = consider d best >>= scan ds

  -- the bucket of the first letter, then every domain if that gave nothing
  unfoldable pub search_best : Corrector → ℕ → Option Best
  search_best c letter = do
    let unset : Best = record { name = []; dist = max_dist + 1 }
    near ← elim (bucket_get letter c.bucket) [ some ds ↦ scan ds unset | none ↦ some unset ]
    if is_empty near.name then scan c.domains near else some near

  -- the last test of `Suggest`
  unfoldable pub accept : Best → Text
  accept best = if leb best.dist max_dist && not (text_eq best.name domain) then best.name else []

  -- `Suggest`, after the domain is trimmed and put in lower case
  unfoldable pub suggest_for : Corrector → Option Text
  suggest_for c = elim (first_byte domain) [
    | none ↦ some []
    | some letter ↦
        if member domain c.domains
        then some []
        else (search_best c letter >>= λ best. some (accept best))
  ]

unfoldable pub suggest : Unicode → Corrector → Text → ℕ → Option Text
suggest u c domain max_dist = suggest_for (to_lower u (trim_space u domain)) max_dist c
