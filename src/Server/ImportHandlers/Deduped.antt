-- ===== src/Server/ImportHandlers/Deduped.antt =====
-- The emails that an upload of internal/server/handlers/import.go keeps.
use mailclear.Base.{
  ◌≡◌, refl, sym, ap, subst, ◌⊎◌, inl, inr, true, false, List, [], ◌∷◌, map, ◌∈◌, Distinct, All,
  Bool-cases, arith,
}
use mailclear.Text.{Text, Unicode, is_empty, to_lower, trim_space, text_eq, member, insert}
use mailclear.Text.Equality.{member-insert, text_eq_sound, text_eq_refl}
use mailclear.Importer.Reader.{seen_or_add}
use mailclear.Server.ImportHandlers.{collect}

module _ (u : Unicode) where
  -- the key under which `Dedup` keeps an email
  abbrev pub key_of : Text → Text
  key_of e = to_lower u (trim_space u e)

  abbrev keys : List Text → List Text
  keys es = map key_of es

  -- no two emails have the same key, and every email of the file that is not blank has one of the keys
  pub record IsDeduped (all kept : List Text) : Type 0 where
    pub distinct : Distinct (map key_of kept)
    pub drawn : All (λ e. e ∈ all) kept
    pub covered : (e : Text) → e ∈ all → is_empty (key_of e) ≡ false → key_of e ∈ map key_of kept

  -- an email whose key is blank or was seen, and one that is new
  collect-seen :
      (seen : List Text) (e : Text) (es : List Text)
      → (is_empty (key_of e) ≡ true) ⊎ (member (key_of e) seen ≡ true)
      → collect u seen es ≡ collect u seen (e ∷ es)
  unfolding collect seen_or_add insert
  collect-seen seen e es h = ground arith

  collect-new :
      (seen : List Text) (e : Text) (es : List Text)
      → is_empty (key_of e) ≡ false
      → member (key_of e) seen ≡ false
      → e ∷ collect u (insert (key_of e) seen) es ≡ collect u seen (e ∷ es)
  unfolding collect seen_or_add
  collect-new seen e es h n = ground arith

  record IsFresh (seen all kept : List Text) : Type 0 where
    distinct : Distinct (map key_of kept)
    drawn : All (λ e. e ∈ all) kept
    unseen : (k : Text) → k ∈ map key_of kept → member k seen ≡ false
    covered :
        (e : Text)
        → e ∈ all
        → is_empty (key_of e) ≡ false
        → (member (key_of e) seen ≡ true) ⊎ (key_of e ∈ map key_of kept)

  drawn-cons :
      (e : Text) (es kept : List Text) → All (λ x. x ∈ es) kept → All (λ x. x ∈ (e ∷ es)) kept
  drawn-cons e es [] h = tt
  drawn-cons e es (x ∷ xs) h = (inr h.0, drawn-cons e es xs h.1)

  IsFresh-seen :
      (seen : List Text) (e : Text) (es kept : List Text)
      → (is_empty (key_of e) ≡ true) ⊎ (member (key_of e) seen ≡ true)
      → IsFresh seen es kept
      → IsFresh seen (e ∷ es) kept
  IsFresh-seen seen e es kept old f = record {
    distinct = f.distinct;
    drawn = drawn-cons e es kept f.drawn;
    unseen = f.unseen;
    covered = λ x m filled. elim m [
      | inl same ↦
          let filled' : is_empty (key_of e) ≡ false =
            subst (λ y. is_empty (key_of y) ≡ false) same filled in
          elim old [
            | inl blank ↦ absurd (ground arith)
            | inr hit ↦ inl (subst (λ y. member (key_of y) seen ≡ true) (sym same) hit)
          ]
      | inr m' ↦ f.covered x m' filled
    ];
  }

  IsFresh-new :
      (seen : List Text) (e : Text) (es kept : List Text)
      → member (key_of e) seen ≡ false
      → IsFresh (insert (key_of e) seen) es kept
      → IsFresh seen (e ∷ es) (e ∷ kept)
  IsFresh-new seen e es kept new f = record {
    distinct = (
      λ m.
          let gone = f.unseen (key_of e) m in
          let here = member-insert (key_of e) (key_of e) seen in
          absurd (ground (arith, text_eq_refl (key_of e))),
      f.distinct,
    );
    drawn = (inl refl, drawn-cons e es kept f.drawn);
    unseen = λ k m. elim m [
      | inl same ↦ subst (λ k'. member k' seen ≡ false) (sym same) new
      | inr m' ↦
          let gone = f.unseen k m' in let both = member-insert k (key_of e) seen in ground arith
    ];
    covered = λ x m filled. elim m [
      | inl same ↦ inr (inl (ap key_of same))
      | inr m' ↦ elim (f.covered x m' filled) [
        | inr there ↦ inr (inr there)
        | inl hit ↦
            let both = member-insert (key_of x) (key_of e) seen in
            elim (Bool-cases (text_eq (key_of x) (key_of e))) [
              | inl same ↦ inr (inl (text_eq_sound (key_of x) (key_of e) same))
              | inr other ↦ inl (ground arith)
            ]
      ]
    ];
  }

  collect-IsFresh : (seen es : List Text) → IsFresh seen es (collect u seen es)
  unfolding collect
  collect-IsFresh seen [] = record {
    distinct = tt;
    drawn = tt;
    unseen = λ k m. absurd m;
    covered = λ e m filled. absurd m;
  }
  collect-IsFresh seen (e ∷ es) = elim (Bool-cases (is_empty (key_of e))) [
    | inl blank ↦
        subst (IsFresh seen (e ∷ es)) (collect-seen seen e es (inl blank))
          (IsFresh-seen seen e es (collect u seen es) (inl blank) (collect-IsFresh seen es))
    | inr filled ↦ elim (Bool-cases (member (key_of e) seen)) [
      | inl old ↦
          subst (IsFresh seen (e ∷ es)) (collect-seen seen e es (inr old))
            (IsFresh-seen seen e es (collect u seen es) (inr old) (collect-IsFresh seen es))
      | inr new ↦ subst (IsFresh seen (e ∷ es)) (collect-new seen e es filled new) (
          IsFresh-new seen e es (collect u (insert (key_of e) seen) es) new
            (collect-IsFresh (insert (key_of e) seen) es))
    ]
  ]

  pub collect-IsDeduped : (es : List Text) → IsDeduped es (collect u [] es)
  unfolding member
  collect-IsDeduped es =
      let f = collect-IsFresh [] es in
      record {
        distinct = f.distinct;
        drawn = f.drawn;
        covered = λ e m filled. elim (f.covered e m filled) [
          | inl hit ↦ absurd (ground arith)
          | inr there ↦ there
        ];
      }
