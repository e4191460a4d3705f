-- ===== src/Typo/Shortest.antt =====
-- What `DamerauLevenshtein` computes, in terms of edits alone.
use mailclear.Base.{
  ℕ, zero, suc, ◌-◌, ◌≤◌, ◌≡◌, refl, ap, ◌∙◌, ◌↔◌, sym, [], ◌∷◌, some, arith, length, get_or,
}
use mailclear.Text.{Text}
use mailclear.Typo.Distance.{damerau_levenshtein}
use mailclear.Typo.Edits.{Edits, start, keep, osa, osa-le_of_Edits, Edits-osa, osa_bounds, osa_comm}
use mailclear.Typo.Rows.{damerau_levenshtein-eq-osa}

-- the distance of two whole texts
abbrev pub distance : Text → Text → ℕ
distance a b = osa a b (length a) (length b)

-- The result is the least number of edits that turn the one text into the other from left to right, where
-- each byte is edited at most once: insertions, deletions, replacements, and swaps of two adjacent bytes,
-- which are not edited again.
pub damerau_levenshtein_shortest :
    (a b : Text)
    → (d : ℕ) × (damerau_levenshtein a b ≡ some d)
      × Edits a b (length a) (length b) d
      × ((n : ℕ) → Edits a b (length a) (length b) n → d ≤ n)
damerau_levenshtein_shortest a b = (
  distance a b,
  damerau_levenshtein-eq-osa a b,
  Edits-osa a b (length a) (length b),
  λ n s. osa-le_of_Edits a b s,
)

-- The order of the texts does not matter.
pub damerau_levenshtein_comm : (a b : Text) → damerau_levenshtein a b ≡ damerau_levenshtein b a
damerau_levenshtein_comm a b =
    damerau_levenshtein-eq-osa a b
    ∙ ap some (osa_comm a b (length a) (length b))
    ∙ sym (damerau_levenshtein-eq-osa b a)

pub distance_bounds :
    (a b : Text) → (length a - length b ≤ distance a b) × (length b - length a ≤ distance a b)
distance_bounds a b = osa_bounds a b (length a) (length b)

diagonal : (a : Text) (i : ℕ) → Edits a a i i 0
diagonal a zero = start
diagonal a (suc i) = keep refl (diagonal a i)

pub distance_self : (a : Text) → distance a a ≡ 0
distance_self a = omega (arith, osa-le_of_Edits a a (diagonal a (length a)))

-- no edits at all: the prefixes are byte for byte the same
Edits-zero :
    (a b : Text) {i j n : ℕ}
    → Edits a b i j n
    → n ≡ 0
    → (i ≡ j) × ((k : ℕ) → suc k ≤ i → get_or a k 0 ≡ get_or b k 0)
Edits-zero a b start e = (refl, λ k h. absurd (omega arith))
Edits-zero a b (Edits.delete s) e = absurd (omega arith)
Edits-zero a b (Edits.insert s) e = absurd (omega arith)
Edits-zero a b (keep {i} {j} same s) e =
    let (ends, all) = Edits-zero a b s e in (ap suc ends, λ k h. ground (arith, all k))
Edits-zero a b (Edits.replace s) e = absurd (omega arith)
Edits-zero a b (Edits.swap c s) e = absurd (omega arith)

text_ext :
    (a b : Text)
    → length a ≡ length b
    → ((k : ℕ) → suc k ≤ length a → get_or a k 0 ≡ get_or b k 0)
    → a ≡ b
text_ext [] [] e h = refl
text_ext [] (y ∷ b) e h = absurd (omega arith)
text_ext (x ∷ a) [] e h = absurd (omega arith)
text_ext (x ∷ a) (y ∷ b) e h =
    let tails : a ≡ b = text_ext a b (omega arith) (λ k q. h (suc k) (omega arith)) in
    let heads : x ≡ y = h 0 (omega arith) in cc

distance-zero : (a b : Text) → distance a b ≡ 0 → a ≡ b
distance-zero a b e =
    let (ends, all) = Edits-zero a b (Edits-osa a b (length a) (length b)) e in
    text_ext a b ends all

-- The distance is 0 exactly when the texts are the same.
pub damerau_levenshtein-zero_iff : (a b : Text) → (damerau_levenshtein a b ≡ some 0) ↔ (a ≡ b)
damerau_levenshtein-zero_iff a b = (
  λ e. distance-zero a b (ground (arith, damerau_levenshtein-eq-osa a b)),
  λ e. rw (← e) (damerau_levenshtein-eq-osa a a ∙ ap some (distance_self a)),
)
