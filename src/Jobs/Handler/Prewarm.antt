-- ===== src/Jobs/Handler/Prewarm.antt =====
-- internal/jobs/handler.go, the first phase of a task: the domains of its emails that have no result in
-- the cache are looked up. The lookups run in parallel, at most `concurrency` of them at once; here they
-- run in the order of the domains. `Cache` is the state that they share.
use mailclear.Base.{
  ℕ, suc, ◌+◌, ◌≡◌, refl, ap, ◌↔◌, inl, inr, Bool, false, List, [], ◌∷◌, length, Bool-cases, arith,
  if◌then◌else◌, ◌==◌, ◌∙◌, ◌∈◌, Distinct,
}
use mailclear.Text.{Text, Unicode}
use mailclear.Jobs.Handler.{unique_domains}
use mailclear.Jobs.Handler.Domains.{IsNamed, unique_domains_iff}

-- `MakeTaskHandler`: 64 where no concurrency is given
unfoldable pub task_concurrency : ℕ → ℕ
task_concurrency concurrency = if concurrency == 0 then 64 else concurrency

-- the domains that `IsCached` does not know
unfoldable pub to_resolve : (cached : Text → Bool) → List Text → List Text
to_resolve cached [] = []
to_resolve cached (d ∷ ds) = let rest = to_resolve cached ds in if cached d then rest else d ∷ rest

-- what `PrewarmSkips` counts
unfoldable pub skips : (cached : Text → Bool) → List Text → ℕ
skips cached [] = 0
skips cached (d ∷ ds) = let rest = skips cached ds in if cached d then suc rest else rest

module _ {Cache : Type 0} (look_up : Text → Cache → Cache) (cached : Cache → Text → Bool) where
  unfoldable pub look_up_all : List Text → Cache → Cache
  look_up_all [] c = c
  look_up_all (d ∷ ds) c = look_up_all ds (look_up d c)

  unfoldable pub prewarm : Unicode → (emails : List Text) → Cache → Cache
  unfolding unique_domains to_resolve look_up_all
  prewarm u emails c = look_up_all (to_resolve (cached c) (unique_domains u emails)) c

to_resolve_iff :
    (cached : Text → Bool) (ds : List Text) (x : Text)
    → (x ∈ to_resolve cached ds) ↔ ((x ∈ ds) × (cached x ≡ false))
unfolding to_resolve
to_resolve_iff cached [] x = (λ h. absurd h, λ h. absurd h.0)
to_resolve_iff cached (d ∷ ds) x =
    let ih = to_resolve_iff cached ds x in
    elim (Bool-cases (cached d)) [
      | inl old ↦ rw old (
        λ h. let (there, new) = ih.0 h in (inr there, new),
        λ h. elim h.0 [ inl same ↦ absurd (ground arith) | inr there ↦ ih.1 (there, h.1) ],
      )
      | inr new ↦ rw new (
        λ h. elim h [
          | inl same ↦ (inl same, ap cached same ∙ new)
          | inr there ↦ let (there', new') = ih.0 there in (inr there', new')
        ],
        λ h. elim h.0 [ inl same ↦ inl same | inr there ↦ inr (ih.1 (there, h.1)) ],
      )
    ]

to_resolve-Distinct :
    (cached : Text → Bool) (ds : List Text) → Distinct ds → Distinct (to_resolve cached ds)
unfolding to_resolve
to_resolve-Distinct cached [] h = tt
to_resolve-Distinct cached (d ∷ ds) h = elim (Bool-cases (cached d)) [
  | inl old ↦ rw old (to_resolve-Distinct cached ds h.1)
  | inr new ↦
      rw new
        (λ there. h.0 ((to_resolve_iff cached ds d).0 there).0, to_resolve-Distinct cached ds h.1)
]

skips-count :
    (cached : Text → Bool) (ds : List Text)
    → skips cached ds + length (to_resolve cached ds) ≡ length ds
unfolding skips to_resolve
skips-count cached [] = refl
skips-count cached (d ∷ ds) = elim (Bool-cases (cached d)) [
  | inl old ↦ rw old (omega (arith, skips-count cached ds))
  | inr new ↦ rw new (omega (arith, skips-count cached ds))
]

-- The domains that a task looks up first are those of its emails that the cache does not know, each of
-- them once; the others are counted as skipped.
pub prewarm_iff :
    (u : Unicode) (cached : Text → Bool) (emails : List Text)
    → let ds = to_resolve cached (unique_domains u emails) in
      Distinct ds
      × ((d : Text) → (d ∈ ds) ↔ (IsNamed u d emails × (cached d ≡ false)))
      × (skips cached (unique_domains u emails) + length ds ≡ length (unique_domains u emails))
prewarm_iff u cached emails =
    let (distinct, named) = unique_domains_iff u emails in
    let ds = unique_domains u emails in
    (
      to_resolve-Distinct cached ds distinct,
      λ d. (
        λ h. let (there, new) = (to_resolve_iff cached ds d).0 h in ((named d).0 there, new),
        λ h. (to_resolve_iff cached ds d).1 ((named d).1 h.0, h.1),
      ),
      skips-count cached ds,
    )
