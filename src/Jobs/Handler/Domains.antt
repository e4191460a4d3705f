-- ===== src/Jobs/Handler/Domains.antt =====
-- Which domains a task resolves first.
use mailclear.Base.{
  ◌≡◌, refl, sym, subst, ◌⊎◌, inl, inr, List, [], ◌∷◌, ◌++◌, none, some, ◌∈◌, Distinct, arith, ◌↔◌,
  Bool-cases, if◌then◌else◌, Option-cases,
}
use mailclear.Text.{Text, Unicode, member}
use mailclear.Text.Equality.{member_iff, mem-member}
use mailclear.Jobs.Handler.{domain_of, domains_from, unique_domains}

-- an email of the list has the domain
abbrev pub IsNamed : Unicode → Text → List Text → Type 0
IsNamed u d [] = ⊥
IsNamed u d (raw ∷ raws) = (domain_of u raw ≡ some d) ⊎ IsNamed u d raws

mem-append : (x : Text) (xs ys : List Text) → (x ∈ (xs ++ ys)) ↔ ((x ∈ xs) ⊎ (x ∈ ys))
mem-append x [] ys = ground arith
mem-append x (z ∷ xs) ys = let ih = mem-append x xs ys in ground arith

Distinct-snoc : (xs : List Text) (d : Text) → Distinct xs → ¬ (d ∈ xs) → Distinct (xs ++ (d ∷ []))
Distinct-snoc [] d h new = ((λ e. e), tt)
Distinct-snoc (x ∷ xs) d h new = (
  (λ there. elim ((mem-append x xs (d ∷ [])).0 there) [
    | inl old ↦ h.0 old
    | inr (inl e) ↦ new (inl (sym e))
    | inr (inr none_left) ↦ none_left
  ]),
  Distinct-snoc xs d h.1 (λ old. new (inr old)),
)

-- `out` after one domain
abbrev put : Text → List Text → List Text
put d out = if member d out then out else out ++ (d ∷ [])

put-Distinct : (d : Text) (out : List Text) → Distinct out → Distinct (put d out)
put-Distinct d out h = elim (Bool-cases (member d out)) [
  | inl old ↦ rw old h
  | inr new ↦
      rw new (Distinct-snoc out d h (λ there. absurd (ground (arith, mem-member d out there))))
]

put_iff : (x d : Text) (out : List Text) → (x ∈ put d out) ↔ ((x ∈ out) ⊎ (x ≡ d))
put_iff x d out = elim (Bool-cases (member d out)) [
  | inl old ↦ rw old (
    inl,
    λ h. elim h [
      | inl there ↦ there
      | inr e ↦ subst (λ y. y ∈ out) (sym e) ((member_iff d out).0 old)
    ],
  )
  | inr new ↦ rw new (ground (arith, mem-append x out (d ∷ [])))
]

domains_from-cons :
    (u : Unicode) (out : List Text) (raw d : Text) (raws : List Text)
    → domain_of u raw ≡ some d
    → domains_from u out (raw ∷ raws) ≡ domains_from u (put d out) raws
unfolding domains_from
domains_from-cons u out raw d raws e = rw (e, domains_from) refl

domains_from-skip :
    (u : Unicode) (out : List Text) (raw : Text) (raws : List Text)
    → domain_of u raw ≡ none
    → domains_from u out (raw ∷ raws) ≡ domains_from u out raws
unfolding domains_from
domains_from-skip u out raw raws e = rw (e, domains_from) refl

-- without repetition, what was there and what the emails name
abbrev IsCollected : Unicode → List Text → List Text → List Text → Type 0
IsCollected u out raws ds = Distinct ds × ((x : Text) → (x ∈ ds) ↔ ((x ∈ out) ⊎ IsNamed u x raws))

domains_from-IsCollected :
    (u : Unicode) (raws out : List Text)
    → Distinct out
    → IsCollected u out raws (domains_from u out raws)
unfolding domains_from
domains_from-IsCollected u [] out h =
    (h, λ x. (inl, λ e. elim e [ inl there ↦ there | inr empty ↦ absurd empty ]))
domains_from-IsCollected u (raw ∷ raws) out h = elim (Option-cases (domain_of u raw)) [
  | inl e ↦
      let (distinct, same) = domains_from-IsCollected u raws out h in
      subst (IsCollected u out (raw ∷ raws)) (sym (domains_from-skip u out raw raws e))
        (distinct, λ x. (ground (arith, same x), ground (arith, same x)))
  | inr (d, e) ↦
      let (distinct, same) = domains_from-IsCollected u raws (put d out) (put-Distinct d out h) in
      subst (IsCollected u out (raw ∷ raws)) (sym (domains_from-cons u out raw d raws e)) (
        distinct,
        λ x. (ground (arith, same x, put_iff x d out), ground (arith, same x, put_iff x d out)),
      )
]

-- The domains that a task resolves first are those of its emails, each of them once.
pub unique_domains_iff :
    (u : Unicode) (raws : List Text)
    → Distinct (unique_domains u raws)
      × ((d : Text) → (d ∈ unique_domains u raws) ↔ IsNamed u d raws)
unfolding unique_domains
unique_domains_iff u raws =
    let (distinct, same) = domains_from-IsCollected u raws [] tt in
    (
      distinct,
      λ d. (
        (λ h. elim ((same d).0 h) [ inl empty ↦ absurd empty | inr named ↦ named ]),
        λ h. (same d).1 (inr h),
      ),
    )
