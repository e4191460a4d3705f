-- ===== src/Storage/Domains.antt =====
-- internal/storage/domains_repo.go on the table of migrations/0004_domains_cache.up.sql, whose key is the
-- domain as `citext`: `fold` is its folding. Times are numbers of seconds.
pub mod Upserts
use mailclear.Base.{ℕ, suc, ◌+◌, Bool, List, [], ◌∷◌, Option, none, some, if◌then◌else◌}
use mailclear.Text.{Text, text_eq}

pub record DomainCache : Type 0 where
  pub domain : Text
  pub mx_records : List Text
  pub a_records : List Text
  pub aaaa_records : List Text
  pub has_mx : Bool
  pub has_a : Bool
  pub is_disposable : Bool
  pub is_role_only : Bool
  pub is_free_provider : Bool
  pub is_catch_all : Option Bool
  pub status : Text
  pub ttl_seconds : ℕ
  pub last_checked_at : ℕ
  pub expires_at : ℕ

-- a row with its counters
pub record DomainRow : Type 0 where
  pub info : DomainCache
  pub hit_count : ℕ
  pub check_count : ℕ

-- the `VALUES` of `Upsert`
unfoldable pub inserted : (now : ℕ) → DomainCache → DomainRow
inserted now d = record {
  info = record d { last_checked_at = now; expires_at = now + d.ttl_seconds };
  hit_count = 0;
  check_count = 1;
}

-- the `DO UPDATE SET` of `Upsert`
unfoldable pub updated : (now : ℕ) → DomainCache → DomainRow → DomainRow
updated now d old = record {
  info = record d {
    domain = old.info.domain;
    is_catch_all = elim d.is_catch_all [ some b ↦ some b | none ↦ old.info.is_catch_all ];
    last_checked_at = now;
    expires_at = now + d.ttl_seconds;
  };
  hit_count = old.hit_count;
  check_count = old.check_count + 1;
}

module _ (fold : Text → Text) where
  unfoldable pub same_domain : Text → DomainRow → Bool
  same_domain domain r = text_eq (fold r.info.domain) (fold domain)

  -- the row of a domain
  unfoldable pub find : Text → List DomainRow → Option DomainRow
  unfolding same_domain
  find domain [] = none
  find domain (r ∷ rs) = let rest = find domain rs in if same_domain domain r then some r else rest

  -- `Get`
  unfoldable pub get : Text → List DomainRow → Option DomainCache
  unfolding find
  get domain rows = elim (find domain rows) [ none ↦ none | some r ↦ some r.info ]

  -- `Upsert`
  unfoldable pub upsert : (now : ℕ) → DomainCache → List DomainRow → List DomainRow
  unfolding same_domain inserted updated
  upsert now d [] = inserted now d ∷ []
  upsert now d (r ∷ rs) =
      let rest = upsert now d rs in
      if same_domain d.domain r then updated now d r ∷ rs else r ∷ rest

  -- `IncrementHit`
  unfoldable pub increment_hit : Text → List DomainRow → List DomainRow
  unfolding same_domain
  increment_hit domain [] = []
  increment_hit domain (r ∷ rs) =
      let rest = increment_hit domain rs in
      (if same_domain domain r then record r { hit_count = r.hit_count + 1 } else r) ∷ rest
