-- ===== src/Jobs/Lifecycle/Ranks.antt =====
-- How far each task of a job is.
use mailclear.Base.{
  ℕ, zero, suc, ◌≤◌, ◌<◌, ◌≡◌, refl, subst, sym, ap, ◌⊎◌, inl, inr, List, [], ◌∷◌, Option, none,
  some, get_elem?, set, map, length, All, arith,
}
use mailclear.Validation.Pipeline.{CtxError}
use mailclear.Jobs.Handler.{Validated, first_error}
use mailclear.Jobs.Submit.{Tick}
use mailclear.Jobs.Lifecycle.{
  Piece, queued, stored, counted, lost, World, on_piece, look_step, write_step,
}
use mailclear.Jobs.Lifecycle.Progress.{size, weigh, left}

-- how far a task is, where an error of the validation is no way on
unfoldable pub rank_of : Option CtxError → ℕ
rank_of none = 1
rank_of (some _) = 0

unfoldable pub rank : Piece → ℕ
unfolding rank_of first_error
rank (queued vs) = rank_of (first_error vs)
rank (stored _) = 2
rank (counted _) = 3
rank (lost _) = 0

unfoldable pub rank_at : ℕ → List Piece → ℕ
unfolding rank
rank_at i [] = 3
rank_at zero (p ∷ ps) = rank p
rank_at (suc i) (p ∷ ps) = rank_at i ps

pub rank_at-set :
    (ps : List Piece) (i : ℕ) (p q : Piece) (k : ℕ)
    → get_elem? ps i ≡ some p
    → rank p ≤ rank q
    → rank_at k ps ≤ rank_at k (set ps i q)
unfolding rank_at
rank_at-set [] i p q k at le = omega arith
rank_at-set (x ∷ ps) zero p q zero at le =
    let same : x ≡ p = cc in subst (λ y. rank y ≤ rank q) (sym same) le
rank_at-set (x ∷ ps) zero p q (suc k) at le = omega arith
rank_at-set (x ∷ ps) (suc i) p q zero at le = omega arith
rank_at-set (x ∷ ps) (suc i) p q (suc k) at le = rank_at-set ps i p q k at le

pub rank_at-set_same :
    (ps : List Piece) (i : ℕ) (p q : Piece)
    → get_elem? ps i ≡ some p
    → rank_at i (set ps i q) ≡ rank q
unfolding rank_at
rank_at-set_same [] i p q at = absurd (ground arith)
rank_at-set_same (x ∷ ps) zero p q at = refl
rank_at-set_same (x ∷ ps) (suc i) p q at = rank_at-set_same ps i p q at

pub rank_at-get :
    (ps : List Piece) (i : ℕ) (p : Piece) → get_elem? ps i ≡ some p → rank_at i ps ≡ rank p
unfolding rank_at
rank_at-get [] i p at = absurd (ground arith)
rank_at-get (x ∷ ps) zero p at = let same : x ≡ p = cc in ap rank same
rank_at-get (x ∷ ps) (suc i) p at = rank_at-get ps i p at

-- what a statement does to the pieces: it takes none back, and piece `i` on from `lo` to `hi`
pub record Moves (i lo hi : ℕ) (ps qs : List Piece) : Type 0 where
  pub rises : (k : ℕ) → rank_at k ps ≤ rank_at k qs
  pub reaches : lo ≤ rank_at i ps → hi ≤ rank_at i qs

pub set-Moves :
    {lo hi : ℕ} (i : ℕ) (ps : List Piece) (p q : Piece)
    → get_elem? ps i ≡ some p
    → rank p ≤ rank q
    → (lo ≤ rank p → hi ≤ rank q)
    → Moves i lo hi ps (set ps i q)
set-Moves i ps p q at le on = record {
  rises = λ k. rank_at-set ps i p q k at le;
  reaches = λ h.
      let r = on (omega (arith, h, rank_at-get ps i p at)) in
      omega (arith, r, rank_at-set_same ps i p q at);
}

pub refl-Moves :
    {lo hi : ℕ} (i : ℕ) (ps : List Piece) (p : Piece)
    → get_elem? ps i ≡ some p
    → (lo ≤ rank p → hi ≤ rank p)
    → Moves i lo hi ps ps
refl-Moves i ps p at on = record {
  rises = λ k. omega arith;
  reaches = λ h.
      let r = on (omega (arith, h, rank_at-get ps i p at)) in
      omega (arith, r, rank_at-get ps i p at);
}

pub get-rank_at : (ps : List Piece) (i : ℕ) → get_elem? ps i ≡ none → rank_at i ps ≡ 3
unfolding rank_at
get-rank_at [] i out = refl
get-rank_at (x ∷ ps) zero out = absurd (ground arith)
get-rank_at (x ∷ ps) (suc i) out = get-rank_at ps i out

pub on_piece-Moves :
    {lo hi : ℕ} (i : ℕ) (o : Option Piece) (f : Piece → World → World) (w : World)
    → get_elem? w.pieces i ≡ o
    → hi ≤ 3
    → ((p : Piece) → get_elem? w.pieces i ≡ some p → Moves i lo hi w.pieces (f p w).pieces)
    → Moves i lo hi w.pieces (on_piece o f w).pieces
unfolding on_piece
on_piece-Moves i none f w at le each = record {
  rises = λ k. omega arith;
  reaches = λ h. omega (arith, le, get-rank_at w.pieces i at);
}
on_piece-Moves i (some p) f w at le each = each p at

pub look_step-pieces : (total : ℕ) (t : Tick) (w : World) → (look_step total t w).pieces ≡ w.pieces
unfolding look_step
look_step-pieces total t w = ground arith

pub write_step-pieces : (now : ℕ) (w : World) → (write_step now w).pieces ≡ w.pieces
unfolding write_step
write_step-pieces now w = ground arith

pub queued-rank_at :
    (tasks : List (List Validated)) (i : ℕ)
    → All (λ vs. first_error vs ≡ none) tasks
    → 1 ≤ rank_at i (map queued tasks)
unfolding rank_at rank rank_of
queued-rank_at [] i valid = omega arith
queued-rank_at (vs ∷ tasks) zero valid = ground (arith, valid.0)
queued-rank_at (vs ∷ tasks) (suc i) valid = queued-rank_at tasks i valid.1

-- beyond the tasks there is nothing to do
pub beyond-rank_at :
    (tasks : List (List Validated)) (i : ℕ)
    → (i < length tasks) ⊎ (rank_at i (map queued tasks) ≡ 3)
unfolding rank_at
beyond-rank_at [] i = inr refl
beyond-rank_at (vs ∷ tasks) zero = inl (omega arith)
beyond-rank_at (vs ∷ tasks) (suc i) = elim (beyond-rank_at tasks i) [
  | inl lt ↦ inl (omega (arith, lt))
  | inr out ↦ inr out
]

size-counted : (p : Piece) → 3 ≤ rank p → size p ≡ 0
unfolding rank rank_of size
size-counted p le = ground arith

pub left-counted : (ps : List Piece) → ((i : ℕ) → 3 ≤ rank_at i ps) → left ps ≡ 0
unfolding weigh rank_at
left-counted [] all = refl
left-counted (p ∷ ps) all =
    omega (arith, size-counted p (all 0), left-counted ps (λ i. all (suc i)))
