-- ===== src/Storage/Domains/Upserts.antt =====
-- What `Get` of internal/storage/domains_repo.go finds after an `Upsert`.
use mailclear.Base.{
  ℕ, ◌≡◌, ◌≢◌, sym, ◌∙◌, inl, inr, List, [], ◌∷◌, Option, none, some, Bool-cases, arith,
}
use mailclear.Text.{Text, text_eq}
use mailclear.Text.Equality.{text_eq_sound, text_eq_refl, text_eq_of_ne}
use mailclear.Storage.Domains.{
  DomainCache, DomainRow, inserted, updated, same_domain, find, get, upsert,
}

-- what the row of a domain becomes
abbrev pub merged : (now : ℕ) → DomainCache → Option DomainRow → DomainRow
merged now d none = inserted now d
merged now d (some old) = updated now d old

module _ (fold : Text → Text) where
  find-upsert :
      (now : ℕ) (d : DomainCache) (rows : List DomainRow)
      → find fold d.domain (upsert fold now d rows) ≡ some (merged now d (find fold d.domain rows))
  unfolding find upsert same_domain inserted updated
  find-upsert now d [] = ground (arith, text_eq_refl (fold d.domain))
  find-upsert now d (r ∷ rs) = let ih = find-upsert now d rs in ground arith

  find-upsert_other :
      (now : ℕ) (d : DomainCache) (k : Text) (rows : List DomainRow)
      → fold k ≢ fold d.domain
      → find fold k (upsert fold now d rows) ≡ find fold k rows
  unfolding find upsert same_domain inserted updated
  find-upsert_other now d k [] other =
      let miss = text_eq_of_ne (fold d.domain) (fold k) (λ e. other (sym e)) in ground arith
  find-upsert_other now d k (r ∷ rs) other =
      let ih = find-upsert_other now d k rs other in
      elim (Bool-cases (text_eq (fold r.info.domain) (fold d.domain))) [
        | inl same ↦
            let miss =
              text_eq_of_ne (fold r.info.domain) (fold k)
                (λ e. other (sym e ∙ text_eq_sound (fold r.info.domain) (fold d.domain) same)) in
            ground arith
        | inr apart ↦ ground arith
      ]

  -- After an `Upsert`, `Get` gives for its domain, in any letter case, what was stored with the time of
  -- the check and the end of its time to live, where the catch-all flag, if unknown, and the spelling of
  -- the domain are those of the row from before; other domains are as before.
  pub get-upsert :
      (now : ℕ) (d : DomainCache) (rows : List DomainRow)
      → (get fold d.domain (upsert fold now d rows)
          ≡ some (merged now d (find fold d.domain rows)).info)
        × ((k : Text)
            → fold k ≢ fold d.domain
            → get fold k (upsert fold now d rows) ≡ get fold k rows)
  unfolding get
  get-upsert now d rows =
      let mine = find-upsert now d rows in
      (ground arith, λ k other. let theirs = find-upsert_other now d k rows other in ground arith)
