-- ===== src/Typo/Buckets.antt =====
-- What loading the canonical list files under each first byte.
use mailclear.Base.{
  ℕ, ◌≡◌, refl, ◌⊎◌, inl, inr, ◌↔◌, false, List, [], ◌∷◌, ◌++◌, some, none, arith, ◌==◌, ◌∈◌,
  if◌then◌else◌, Bool-cases, All, Gives,
}
use mailclear.Text.{Text, Unicode, to_lower, trim_space}
use mailclear.Text.Lines.{entries, entries-kept, is_skipped}
use mailclear.Typo.Corrector.{bucket_append, bucket_get, fill_buckets, load, first_byte, suggest}
use mailclear.Typo.Suggest.{IsIndexed, IsSuggestion, suggest_for-IsSuggestion}

abbrev held : ℕ → List (ℕ × List Text) → List Text
held k m = elim (bucket_get k m) [ some ds ↦ ds | none ↦ [] ]

held-append :
    (k b : ℕ) (d : Text) (m : List (ℕ × List Text))
    → held k (bucket_append b d m) ≡ (if b == k then held k m ++ (d ∷ []) else held k m)
unfolding bucket_append bucket_get
held-append k b d [] = ground arith
held-append k b d ((j, ds) ∷ m) = ground (arith, held-append k b d m)

mem-snoc : (x y : Text) (xs : List Text) → (x ∈ (xs ++ (y ∷ []))) ↔ ((x ∈ xs) ⊎ (x ≡ y))
mem-snoc x y [] =
    (elim [ inl e ↦ inr e | inr e ↦ absurd e ], elim [ inl e ↦ absurd e | inr e ↦ inl e ])
mem-snoc x y (z ∷ xs) = (
  elim [
    | inl e ↦ inl (inl e)
    | inr m ↦ elim ((mem-snoc x y xs).0 m) [ inl m' ↦ inl (inr m') | inr e ↦ inr e ]
  ],
  elim [
    | inl m ↦ elim m [ inl e ↦ inl e | inr m' ↦ inr ((mem-snoc x y xs).1 (inl m')) ]
    | inr e ↦ inr ((mem-snoc x y xs).1 (inr e))
  ],
)

abbrev Starts : ℕ → Text → Type 0
Starts k d = first_byte d ≡ some k

mem-held-append :
    (k b : ℕ) (d x : Text) (m : List (ℕ × List Text))
    → first_byte d ≡ some b
    → (x ∈ held k (bucket_append b d m)) ↔ ((x ∈ held k m) ⊎ ((x ≡ d) × Starts k x))
mem-held-append k b d x m f = elim (Bool-cases (b == k)) [
  | inl e ↦
      rw (held-append k b d m, e)
        (
          λ h. elim ((mem-snoc x d (held k m)).0 h) [
            | inl m' ↦ inl m'
            | inr eq ↦ inr (eq, ground arith)
          ],
          λ h. elim h [
            | inl m' ↦ (mem-snoc x d (held k m)).1 (inl m')
            | inr (eq, _) ↦ (mem-snoc x d (held k m)).1 (inr eq)
          ],
        )
  | inr e ↦
      rw (held-append k b d m, e)
        (λ h. inl h, λ h. elim h [ inl m' ↦ m' | inr (eq, s) ↦ absurd (ground arith) ])
]

mem-held-fill :
    (k : ℕ) (x : Text) (ds : List Text) (m : List (ℕ × List Text))
    → (x ∈ held k (fill_buckets ds m)) ↔ ((x ∈ held k m) ⊎ ((x ∈ ds) × Starts k x))
unfolding fill_buckets first_byte
mem-held-fill k x [] m = (λ h. inl h, λ h. elim h [ inl a ↦ a | inr (a, _) ↦ absurd a ])
mem-held-fill k x ([] ∷ ds) m =
    let (to, from) = mem-held-fill k x ds m in
    (
      λ h. elim (to h) [ inl a ↦ inl a | inr (a, s) ↦ inr (inr a, s) ],
      λ h. elim h [
        | inl a ↦ from (inl a)
        | inr (inl e, s) ↦ absurd (ground arith)
        | inr (inr a, s) ↦ from (inr (a, s))
      ],
    )
mem-held-fill k x ((b ∷ d) ∷ ds) m =
    let (to, from) = mem-held-fill k x ds (bucket_append b (b ∷ d) m) in
    let (to', from') = mem-held-append k b (b ∷ d) x m refl in
    (
      λ h. elim (to h) [
        | inl a ↦ elim (to' a) [ inl a' ↦ inl a' | inr (e, s) ↦ inr (inl e, s) ]
        | inr (a, s) ↦ inr (inr a, s)
      ],
      λ h. elim h [
        | inl a ↦ from (inl (from' (inl a)))
        | inr (inl e, s) ↦ from (inl (from' (inr (e, s))))
        | inr (inr a, s) ↦ from (inr (a, s))
      ],
    )

not-mem_of_kept : (ds : List Text) → All (λ e. is_skipped e ≡ false) ds → ¬ ([] ∈ ds)
not-mem_of_kept [] h m = m
not-mem_of_kept (d ∷ ds) h (inl e) = absurd (ground arith)
not-mem_of_kept (d ∷ ds) h (inr m) = not-mem_of_kept ds h.1 m

-- A corrector loaded from any list text has no empty domain, and its buckets hold its domains, each
-- under its first byte.
pub load-IsIndexed : (u : Unicode) (raw : Text) → IsIndexed (load u raw)
unfolding load bucket_get
load-IsIndexed u raw = record {
  named = not-mem_of_kept (entries u raw) (entries-kept u raw);
  inside =
      λ k d h. elim ((mem-held-fill k d (entries u raw) []).0 h) [ inl a ↦ absurd a | inr p ↦ p ];
  filed = λ k d h s. (mem-held-fill k d (entries u raw) []).1 (inr (h, s));
}

-- With a corrector loaded from any list text, `Suggest` returns for every domain and bound, without a
-- panic, what `IsSuggestion` says of the trimmed domain in lower case: nothing where it is empty or
-- canonical, or no canonical domain is within the bound; otherwise another, canonical domain within
-- the bound, nearest among those with the domain's first letter, and nearest of all where its first
-- letter differs.
pub suggest-IsSuggestion :
    (u : Unicode) (raw domain : Text) (max_dist : ℕ)
    → Gives
        (IsSuggestion (to_lower u (trim_space u domain)) max_dist (load u raw))
        (suggest u (load u raw) domain max_dist)
unfolding suggest
suggest-IsSuggestion u raw domain max_dist =
    suggest_for-IsSuggestion (to_lower u (trim_space u domain)) max_dist (load u raw)
      (load-IsIndexed u raw)
