-- ===== src/Typo/Suggest.antt =====
-- What `Corrector.Suggest` returns.
use mailclear.Base.{
  ℕ, ◌+◌, ◌≤◌, ◌<◌, ◌≡◌, ◌≢◌, refl, sym, ap, subst, ◌∙◌, ◌⊎◌, inl, inr, true, false, List, [], ◌∷◌,
  some, none, arith, leb, ◌∈◌, Bool-cases, Option-cases, Gives, gives, Gives-bind, Gives-map,
}
use native.Mathlib.Decide.{dec_le}
use mailclear.Text.{Text, is_empty, text_eq, member}
use mailclear.Text.Equality.{text_eq_of_ne, member_iff}
use mailclear.Typo.Shortest.{distance}
use mailclear.Typo.Corrector.{
  Corrector, bucket_get, first_byte, Best, scan, search_best, accept, suggest_for,
}
use mailclear.Typo.Scan.{IsScanned, scan-IsScanned}

is_empty-eq : (t : Text) → is_empty t ≡ true → t ≡ []
is_empty-eq [] e = refl
is_empty-eq (b ∷ t) e = cc

no_first : (letter : ℕ) (t : Text) → first_byte t ≡ some letter → t ≢ []
unfolding first_byte
no_first letter [] e = cc
no_first letter (b ∷ t) e = λ h. cc

abbrev pub bucket_of : Corrector → ℕ → List Text
bucket_of c letter = elim (bucket_get letter c.bucket) [ some ds ↦ ds | none ↦ [] ]

-- the buckets hold the canonical domains by their first byte, and none of these is empty
pub record IsIndexed (c : Corrector) : Type 0 where
  pub named : ¬ ([] ∈ c.domains)
  pub inside :
      (letter : ℕ) (d : Text)
      → d ∈ bucket_of c letter
      → (d ∈ c.domains) × (first_byte d ≡ some letter)
  pub filed :
      (letter : ℕ) (d : Text) → d ∈ c.domains → first_byte d ≡ some letter → d ∈ bucket_of c letter

module _ (domain : Text) (max_dist : ℕ) (c : Corrector) where
  abbrev unset : Best
  unset = record { name = []; dist = max_dist + 1 }

  record IsSearched (letter : ℕ) (best : Best) : Type 0 where
    source :
        ((best.name ≡ []) × (best.dist ≡ max_dist + 1))
        ⊎ ((best.name ∈ c.domains)
            × (best.dist ≡ distance domain best.name)
            × (best.dist ≤ max_dist))
    least_letter :
        (d : Text)
        → d ∈ c.domains
        → first_byte d ≡ some letter
        → distance domain d ≤ max_dist
        → best.dist ≤ distance domain d
    least :
        first_byte best.name ≢ some letter
        → (d : Text) → d ∈ c.domains
        → distance domain d ≤ max_dist
        → best.dist ≤ distance domain d

  near_unset :
      (letter : ℕ) (near : Best)
      → IsIndexed c
      → IsScanned domain max_dist (bucket_of c letter) unset near
      → is_empty near.name ≡ true
      → near ≡ unset
  near_unset letter near i s e = elim s.source [
    | inl same ↦ same
    | inr (m, _, _) ↦ absurd (
        i.named
          (subst (λ t. t ∈ c.domains) (is_empty-eq near.name e) (i.inside letter near.name m).0))
  ]

  near-IsSearched :
      (letter : ℕ) (near : Best)
      → IsIndexed c
      → IsScanned domain max_dist (bucket_of c letter) unset near
      → is_empty near.name ≡ false
      → IsSearched letter near
  near-IsSearched letter near i s e = elim s.source [
    | inl same ↦ absurd (ground arith)
    | inr (m, d, l) ↦ record {
      source = inr ((i.inside letter near.name m).0, d, omega arith);
      least_letter = λ x h f q. s.least x (i.filed letter x h f) q;
      least = λ no_letter x h q. absurd (no_letter (i.inside letter near.name m).1);
    }
  ]

  all-IsSearched :
      (letter : ℕ) (best : Best)
      → IsScanned domain max_dist c.domains unset best
      → IsSearched letter best
  all-IsSearched letter best s = record {
    source = elim s.source [
      | inl same ↦ inl (ap (λ (x : Best). x.name) same, ap (λ (x : Best). x.dist) same)
      | inr (m, d, l) ↦ inr (m, d, omega arith)
    ];
    least_letter = λ x h f q. s.least x h q;
    least = λ _ x h q. s.least x h q;
  }

  scan-bucket :
      (letter : ℕ)
      → (elim (bucket_get letter c.bucket) [
        | some ds ↦ scan domain max_dist ds unset
        | none ↦ some unset
      ])
        ≡ scan domain max_dist (bucket_of c letter) unset
  unfolding scan
  scan-bucket letter = ground arith

  search_best-IsSearched :
      (letter : ℕ) → IsIndexed c → Gives (IsSearched letter) (search_best domain max_dist c letter)
  unfolding search_best
  search_best-IsSearched letter i = rw (scan-bucket letter) (
      Gives-bind (scan-IsScanned domain max_dist (bucket_of c letter) unset) λ near s.
        elim (Bool-cases (is_empty near.name)) [
          | inl e ↦
              rw (e, near_unset letter near i s e)
                (Gives-map (scan-IsScanned domain max_dist c.domains unset) (all-IsSearched letter))
          | inr e ↦ rw e (gives (near-IsSearched letter near i s e))
        ])

  -- What a caller may rely on, for a result `r` of a domain in its normal form.
  pub record IsSuggestion (r : Text) : Type 0 where
    pub quiet : (domain ≡ []) ⊎ (domain ∈ c.domains) → r ≡ []
    pub canonical : r ≢ [] → (r ∈ c.domains) × (distance domain r ≤ max_dist) × (r ≢ domain)
    pub complete :
        r ≡ []
        → domain ≢ []
        → ¬ (domain ∈ c.domains)
        → (d : Text) → d ∈ c.domains
        → max_dist < distance domain d
    pub nearest_letter :
        r ≢ []
        → (d : Text) → d ∈ c.domains
        → first_byte d ≡ first_byte domain
        → distance domain r ≤ distance domain d
    pub nearest :
        r ≢ []
        → first_byte r ≢ first_byte domain
        → (d : Text) → d ∈ c.domains
        → distance domain r ≤ distance domain d

  far_of_unset :
      (letter : ℕ) (best : Best)
      → IsSearched letter best
      → best.name ≡ []
      → best.dist ≡ max_dist + 1
      → (d : Text) → d ∈ c.domains
      → max_dist < distance domain d
  far_of_unset letter best s blank far d m = elim (dec_le (distance domain d) max_dist) [
    | yes near ↦ absurd (omega (arith, s.least (λ e. no_first letter best.name e blank) d m near))
    | no away ↦ omega arith
  ]

  accepted :
      (letter : ℕ) (best : Best)
      → IsIndexed c
      → ¬ (domain ∈ c.domains)
      → first_byte domain ≡ some letter
      → IsSearched letter best
      → IsSuggestion (accept domain max_dist best)
  unfolding accept
  accepted letter best i new f s = elim s.source [
    | inl (blank, far) ↦
        let over : leb best.dist max_dist ≡ false = ground arith in
        rw over (record {
          quiet = λ _. refl;
          canonical = λ h. absurd (h refl);
          complete = λ _ _ _ d m. far_of_unset letter best s blank far d m;
          nearest_letter = λ h. absurd (h refl);
          nearest = λ h. absurd (h refl);
        })
    | inr (m, d, l) ↦
        let under : leb best.dist max_dist ≡ true = ground arith in
        let other : text_eq best.name domain ≡ false =
          text_eq_of_ne _ _ (λ e. new (subst (λ t. t ∈ c.domains) e m)) in
        rw (under, other)
          (record {
            quiet = elim [ inl e ↦ absurd (no_first letter domain f e) | inr e ↦ absurd (new e) ];
            canonical = λ h. (m, omega arith, λ e. new (subst (λ t. t ∈ c.domains) e m));
            complete = λ e. absurd (i.named (subst (λ t. t ∈ c.domains) e m));
            nearest_letter = λ h x q g. elim (dec_le (distance domain x) max_dist) [
              | yes near ↦ omega (arith, s.least_letter x q (g ∙ f) near)
              | no far ↦ omega arith
            ];
            nearest = λ h no_letter x q. elim (dec_le (distance domain x) max_dist) [
              | yes near ↦ omega (arith, s.least (λ e. no_letter (e ∙ sym f)) x q near)
              | no far ↦ omega arith
            ];
          })
  ]

  none-first : first_byte domain ≡ none → domain ≡ []
  unfolding first_byte
  none-first e = ground arith

  -- `Suggest` never panics. It is silent on an empty domain, on a canonical one, and where no
  -- canonical domain is within `maxDist`; any other domain gets a canonical domain within `maxDist`,
  -- the nearest of those with its first letter or, where the result has another first letter, the
  -- nearest of all.
  pub suggest_for-IsSuggestion : IsIndexed c → Gives IsSuggestion (suggest_for domain max_dist c)
  unfolding suggest_for
  suggest_for-IsSuggestion i = elim (Option-cases (first_byte domain)) [
    | inl e ↦
        rw (e, suggest_for)
          (gives (record {
            quiet = λ _. refl;
            canonical = λ h. absurd (h refl);
            complete = λ _ h. absurd (h (none-first e));
            nearest_letter = λ h. absurd (h refl);
            nearest = λ h. absurd (h refl);
          }))
    | inr (letter, e) ↦ elim (Bool-cases (member domain c.domains)) [
      | inl known ↦
          rw (e, suggest_for, known)
            (gives (record {
              quiet = λ _. refl;
              canonical = λ h. absurd (h refl);
              complete = λ _ _ h. absurd (h ((member_iff domain c.domains).0 known));
              nearest_letter = λ h. absurd (h refl);
              nearest = λ h. absurd (h refl);
            }))
      | inr new ↦
          let new' : ¬ (domain ∈ c.domains) =
            λ m. absurd (ground (arith, (member_iff domain c.domains).1 m)) in
          rw (e, suggest_for, new)
            (Gives-bind (search_best-IsSearched letter i)
              λ best s. gives (accepted letter best i new' e s))
    ]
  ]
