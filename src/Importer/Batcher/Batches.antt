-- ===== src/Importer/Batcher/Batches.antt =====
-- What the batches of internal/importer/batcher.go hold.
use mathlib.Core.List.{append_assoc, append-nil}
use mailclear.Base.{
  ℕ, ◌≤◌, ◌<◌, ◌≡◌, refl, ap, sym, subst, ◌∙◌, inl, inr, true, false, List, [], ◌∷◌, ◌++◌, Option,
  none, some, length, length-append, leb, All, Bool-cases, arith,
}
use mailclear.Text.{Text}
use mailclear.Importer.Batcher.{Batcher, new_batcher, flush, add, close}

-- the batches put together
abbrev pub concat : List (List Text) → List Text
concat [] = []
concat (b ∷ bs) = b ++ concat bs

-- `Each` with `Add`: the first error ends it
abbrev pub add_all : (ℕ → Option Text) → List Text → Batcher → Batcher × Option Text
add_all answer [] b = (b, none)
add_all answer (e ∷ es) b =
    let rest = add_all answer es (add answer e b).0 in
    elim (add answer e b).1 [ some err ↦ ((add answer e b).0, some err) | none ↦ rest ]

-- every batch is full, and what waits is less than one batch
pub record IsFilled (seen : List Text) (b : Batcher) : Type 0 where
  pub kept : concat b.out ++ b.buf ≡ seen
  pub short : length b.buf < b.size
  pub full : All (λ batch. length batch ≡ b.size) b.out

concat-append : (bs cs : List (List Text)) → concat (bs ++ cs) ≡ concat bs ++ concat cs
concat-append [] cs = refl
concat-append (b ∷ bs) cs =
    ap (λ l. b ++ l) (concat-append bs cs) ∙ sym (append_assoc b (concat bs) (concat cs))

All-append {ℓ} :
    (P : List Text → Type ℓ) (bs cs : List (List Text)) → All P bs → All P cs → All P (bs ++ cs)
All-append P [] cs p q = q
All-append P (b ∷ bs) cs p q = (p.0, All-append P bs cs p.1 q)

concat-snoc : (bs : List (List Text)) (c : List Text) → concat (bs ++ (c ∷ [])) ≡ concat bs ++ c
concat-snoc bs c = concat-append bs (c ∷ []) ∙ ap (λ l. concat bs ++ l) (append-nil c)

flush_some :
    (answer : ℕ → Option Text) (b : Batcher) (l : List Text)
    → b.buf ≡ l
    → 1 ≤ length l
    → (flush answer b).0 ≡ record b { buf = []; out = b.out ++ (l ∷ []) }
unfolding flush
flush_some answer b [] e some_email = absurd (omega arith)
flush_some answer b (x ∷ xs) e some_email = ground arith

add-full :
    (answer : ℕ → Option Text) (e : Text) (b : Batcher)
    → b.size ≤ length (b.buf ++ (e ∷ []))
    → (add answer e b).0 ≡ record b { buf = []; out = b.out ++ ((b.buf ++ (e ∷ [])) ∷ []) }
unfolding add
add-full answer e b full =
    let flushed =
      flush_some answer (record b { buf = b.buf ++ (e ∷ []) }) (b.buf ++ (e ∷ [])) refl
        (omega (arith, length-append b.buf (e ∷ []))) in
    ground arith

add-less :
    (answer : ℕ → Option Text) (e : Text) (b : Batcher)
    → length (b.buf ++ (e ∷ [])) < b.size
    → add answer e b ≡ (record b { buf = b.buf ++ (e ∷ []) }, none)
unfolding add
add-less answer e b less = ground arith

add-IsFilled :
    (answer : ℕ → Option Text) (e : Text) (seen : List Text) (b : Batcher)
    → 1 ≤ b.size
    → IsFilled seen b
    → IsFilled (seen ++ (e ∷ [])) (add answer e b).0 × ((add answer e b).0.size ≡ b.size)
add-IsFilled answer e seen b pos h = elim (Bool-cases (leb b.size (length (b.buf ++ (e ∷ []))))) [
  | inl full ↦ simp (add-full answer e b (ground arith)) (filled_full full, refl)
  | inr less ↦ simp (add-less answer e b (ground arith)) (filled_less less, refl)
]
  where
    kept' : concat b.out ++ (b.buf ++ (e ∷ [])) ≡ seen ++ (e ∷ [])
    kept' = sym (append_assoc (concat b.out) b.buf (e ∷ [])) ∙ ap (λ l. l ++ (e ∷ [])) h.kept

    filled_full :
        leb b.size (length (b.buf ++ (e ∷ []))) ≡ true
        → IsFilled
            (seen ++ (e ∷ []))
            (record b { buf = []; out = b.out ++ ((b.buf ++ (e ∷ [])) ∷ []) })
    filled_full full = record {
      kept = append-nil _ ∙ concat-snoc b.out (b.buf ++ (e ∷ [])) ∙ kept';
      short = omega arith;
      full =
          All-append (λ batch. length batch ≡ b.size) b.out ((b.buf ++ (e ∷ [])) ∷ []) h.full
            (ground (arith, length-append b.buf (e ∷ []), h.short), tt);
    }

    filled_less :
        leb b.size (length (b.buf ++ (e ∷ []))) ≡ false
        → IsFilled (seen ++ (e ∷ [])) (record b { buf = b.buf ++ (e ∷ []) })
    filled_less less = record { kept = kept'; short = ground arith; full = h.full }

add_all-cons :
    (answer : ℕ → Option Text) (e : Text) (es : List Text) (b : Batcher)
    → (add_all answer (e ∷ es) b).1 ≡ none
    → ((add_all answer es (add answer e b).0).1 ≡ none)
      × ((add_all answer (e ∷ es) b).0 ≡ (add_all answer es (add answer e b).0).0)
add_all-cons answer e es b ok = ground arith

All-map {ℓ} :
    {P Q : List Text → Type ℓ} (bs : List (List Text))
    → ((b : List Text) → P b → Q b)
    → All P bs
    → All Q bs
All-map [] f p = tt
All-map (b ∷ bs) f p = (f b p.0, All-map bs f p.1)

add_all-IsFilled :
    (answer : ℕ → Option Text) (es seen : List Text) (b : Batcher)
    → 1 ≤ b.size
    → IsFilled seen b
    → (add_all answer es b).1 ≡ none
    → IsFilled (seen ++ es) (add_all answer es b).0 × ((add_all answer es b).0.size ≡ b.size)
add_all-IsFilled answer [] seen b pos h ok =
    (subst (λ l. IsFilled l b) (sym (append-nil seen)) h, refl)
add_all-IsFilled answer (e ∷ es) seen b pos h ok =
    let (filled, same) = add-IsFilled answer e seen b pos h in
    let b' = (add answer e b).0 in
    let (ok', eq) = add_all-cons answer e es b ok in
    let (filled', same') =
      add_all-IsFilled answer es (seen ++ (e ∷ [])) b' (omega (arith, same)) filled ok' in
    (
      subst (λ l. IsFilled l (add_all answer (e ∷ es) b).0) (append_assoc seen (e ∷ []) es)
          (subst (λ r. IsFilled ((seen ++ (e ∷ [])) ++ es) r) (sym eq) filled'),
      ap (λ r. r.size) eq ∙ same' ∙ same,
    )

-- no batch is empty or larger than the size
abbrev pub IsSized : ℕ → List Text → Type 0
IsSized size batch = (1 ≤ length batch) × (length batch ≤ size)

close_none : (answer : ℕ → Option Text) (b : Batcher) → b.buf ≡ [] → (close answer b).0 ≡ b
unfolding close flush
close_none answer b e = ground arith

close_some :
    (answer : ℕ → Option Text) (b : Batcher) (x : Text) (xs : List Text)
    → b.buf ≡ x ∷ xs
    → (close answer b).0 ≡ record b { buf = []; out = b.out ++ ((x ∷ xs) ∷ []) }
unfolding close
close_some answer b x xs e = flush_some answer b (x ∷ xs) e (omega arith)

-- all that was seen is in batches of a good size, and nothing waits
abbrev pub IsDone : ℕ → List Text → Batcher → Type 0
IsDone size seen b = (concat b.out ≡ seen) × (b.buf ≡ []) × All (IsSized size) b.out

close-IsDone :
    (answer : ℕ → Option Text) (seen : List Text) (b : Batcher)
    → 1 ≤ b.size
    → IsFilled seen b
    → IsDone b.size seen (close answer b).0
close-IsDone answer seen b pos h = go b.buf refl
  where
    full : All (IsSized b.size) b.out
    full = All-map b.out (λ batch e. (omega arith, omega arith)) h.full

    kept : (l : List Text) → b.buf ≡ l → concat b.out ++ l ≡ seen
    kept l e = ap (λ l. concat b.out ++ l) (sym e) ∙ h.kept

    go : (l : List Text) → b.buf ≡ l → IsDone b.size seen (close answer b).0
    go [] e =
        subst (IsDone b.size seen) (sym (close_none answer b e))
          (sym (append-nil (concat b.out)) ∙ kept [] e, e, full)
    go (x ∷ xs) e = subst (IsDone b.size seen) (sym (close_some answer b x xs e)) (
      concat-snoc b.out (x ∷ xs) ∙ kept (x ∷ xs) e,
      refl,
      All-append (IsSized b.size) b.out ((x ∷ xs) ∷ []) full
          ((omega arith, ground (arith, h.short, ap length e)), tt),
    )

new_batcher-IsFilled : (size : ℕ) → IsFilled [] (new_batcher size) × (1 ≤ (new_batcher size).size)
unfolding new_batcher
new_batcher-IsFilled size = (record { kept = refl; short = ground arith; full = tt }, ground arith)

-- If no call of `flush` fails, the batches put together are the emails in order, nothing waits after
-- `Close`, and every batch has from 1 email to as many as the size.
pub add_all-close :
    (answer : ℕ → Option Text) (size : ℕ) (es : List Text)
    → (add_all answer es (new_batcher size)).1 ≡ none
    → IsDone (new_batcher size).size es (close answer (add_all answer es (new_batcher size)).0).0
add_all-close answer size es ok =
    let (start, pos) = new_batcher-IsFilled size in
    let (filled, same) = add_all-IsFilled answer es [] (new_batcher size) pos start ok in
    let b = (add_all answer es (new_batcher size)).0 in
    subst (λ n. IsDone n es (close answer b).0) same
      (close-IsDone answer es b (omega (arith, pos, same)) filled)
