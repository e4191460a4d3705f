-- ===== src/Typo/Scan.antt =====
-- The pass of `Corrector.Suggest` over candidates.
use mailclear.Base.{
  ℕ, ◌≤◌, ◌<◌, ◌≡◌, refl, sym, ap, subst, ◌∙◌, ◌⊎◌, inl, inr, List, [], ◌∷◌, arith, ltb, length,
  ◌∈◌, Bool-cases, Gives, gives, Gives-bind, Gives-map,
}
use mailclear.Text.{Text}
use mailclear.Typo.Rows.{damerau_levenshtein-eq-osa}
use mailclear.Typo.Shortest.{distance, distance_bounds}
use mailclear.Typo.Corrector.{abs_diff, Best, consider, scan}

module _ (domain : Text) (max_dist : ℕ) where
  -- the outcome of looking at the candidates `cs` from `before`
  pub record IsScanned (cs : List Text) (before after : Best) : Type 0 where
    pub source :
        (after ≡ before)
        ⊎ ((after.name ∈ cs)
            × (after.dist ≡ distance domain after.name)
            × (after.dist < before.dist))
    pub least : (d : Text) → d ∈ cs → distance domain d ≤ max_dist → after.dist ≤ distance domain d
    pub no_worse : after.dist ≤ before.dist

  record IsConsidered (d : Text) (before after : Best) : Type 0 where
    pub source :
        (after ≡ before)
        ⊎ ((after.name ≡ d) × (after.dist ≡ distance domain d) × (after.dist < before.dist))
    pub least : distance domain d ≤ max_dist → after.dist ≤ distance domain d
    pub no_worse : after.dist ≤ before.dist

  -- A candidate whose length differs by more than `maxDist` may be skipped: it is too far.
  far_of_length :
      (d : Text) → max_dist < abs_diff (length d) (length domain) → max_dist < distance domain d
  unfolding abs_diff
  far_of_length d h = omega (arith, distance_bounds domain d)

  consider-IsConsidered :
      (d : Text) (before : Best) → Gives (IsConsidered d before) (consider domain max_dist d before)
  unfolding consider
  consider-IsConsidered d before =
      elim (Bool-cases (ltb max_dist (abs_diff (length d) (length domain)))) [
        | inl far ↦ rw far (
            gives (record {
              source = inl refl;
              least = λ h. absurd (ground (arith, far_of_length d));
              no_worse = omega arith;
            }))
        | inr near ↦
            rw (near, damerau_levenshtein-eq-osa domain d)
              (elim (Bool-cases (ltb (distance domain d) before.dist)) [
                | inl less ↦ rw less (
                    gives (record {
                      source = inr (refl, refl, ground arith);
                      least = λ h. omega arith;
                      no_worse = ground arith;
                    }))
                | inr more ↦ rw more (
                    gives (record {
                      source = inl refl;
                      least = λ h. ground arith;
                      no_worse = omega arith;
                    }))
              ])
      ]

  abbrev pub IsFound : List Text → Best → Best → Type 0
  IsFound cs before after =
      (after.name ∈ cs) × (after.dist ≡ distance domain after.name) × (after.dist < before.dist)

  scanned_source :
      (d : Text) (ds : List Text) (before middle after : Best)
      → IsConsidered d before middle
      → (after ≡ middle) ⊎ IsFound ds middle after
      → (after ≡ before) ⊎ IsFound (d ∷ ds) before after
  scanned_source d ds before middle after c (inr (m, e, l)) =
      inr (inr m, e, omega (arith, c.no_worse))
  scanned_source d ds before middle after c (inl same) = elim c.source [
    | inl e ↦ inl (same ∙ e)
    | inr (n, e, l) ↦ inr (
        subst (λ (x : Best). IsFound (d ∷ ds) before x) (sym same)
          (inl n, e ∙ ap (distance domain) (sym n), l))
  ]

  pub scan-IsScanned :
      (cs : List Text) (before : Best)
      → Gives (IsScanned cs before) (scan domain max_dist cs before)
  unfolding scan
  scan-IsScanned [] before =
      gives (record { source = inl refl; least = λ d m h. absurd m; no_worse = omega arith })
  scan-IsScanned (d ∷ ds) before = Gives-bind (consider-IsConsidered d before) λ middle c.
      Gives-map (scan-IsScanned ds middle) λ after s. record {
        source = scanned_source d ds before middle after c s.source;
        least = λ x m h. elim m [
          | inl e ↦
              let h' : distance domain d ≤ max_dist =
                subst (λ y. distance domain y ≤ max_dist) e h in
              let e' : distance domain x ≡ distance domain d = ap (distance domain) e in
              omega (arith, c.least h', s.no_worse)
          | inr m' ↦ s.least x m' h
        ];
        no_worse = omega (arith, c.no_worse, s.no_worse);
      }
