-- ===== src/App/Lists/Latest.antt =====
-- Which list the process consults after its updates.
use mailclear.Base.{
  ◌≡◌, refl, ap, ◌∙◌, inl, inr, List, [], ◌∷◌, Option, none, some, take, ◌==◌, if◌then◌else◌,
  Bool-cases, arith,
}
use mailclear.Text.{Text, Unicode}
use mailclear.Lookups.Registry.{Registry, load_string}
use mailclear.App.Lists.{Fetched, no_reply, reply, run_once, run}

-- the list of a fetch that succeeded
abbrev pub body_of : Fetched → Option Text
body_of (no_reply _) = none
body_of (reply status none) = none
body_of (reply status (some body)) = if status == 200 then some (take 8388608 body) else none

-- the last list of the fetches, the first of which came first
abbrev pub latest : Option Text → List Fetched → Option Text
latest found [] = found
latest found (f ∷ fs) = latest (elim (body_of f) [ none ↦ found | some b ↦ some b ]) fs

-- the registry with a list, if there is one
abbrev pub with_list : Unicode → Option Text → Registry → Registry
with_list u none r = r
with_list u (some body) r = load_string u body r

run_once-with_list :
    (u : Unicode) (f : Fetched) (r : Registry) → run_once u f r ≡ with_list u (body_of f) r
unfolding run_once
run_once-with_list u (no_reply e) r = refl
run_once-with_list u (reply status none) r = refl
run_once-with_list u (reply status (some body)) r = elim (Bool-cases (status == 200)) [
  | inl ok ↦ ground arith
  | inr bad ↦ ground arith
]

-- a list replaces the one before
with_list-with_list :
    (u : Unicode) (found later : Option Text) (r : Registry)
    → with_list u later (with_list u found r)
      ≡ with_list u (elim later [ none ↦ found | some b ↦ some b ]) r
unfolding load_string
with_list-with_list u found none r = refl
with_list-with_list u none (some b) r = refl
with_list-with_list u (some a) (some b) r = refl

run-with_list :
    (u : Unicode) (found : Option Text) (first : Fetched) (ticks : List Fetched) (r : Registry)
    → run u first ticks (with_list u found r) ≡ with_list u (latest found (first ∷ ticks)) r
unfolding run
run-with_list u found f [] r =
    run_once-with_list u f (with_list u found r) ∙ with_list-with_list u found (body_of f) r
run-with_list u found f (g ∷ gs) r =
    ap (run u g gs)
      (run_once-with_list u f (with_list u found r) ∙ with_list-with_list u found (body_of f) r)
    ∙ run-with_list u (elim (body_of f) [ none ↦ found | some b ↦ some b ]) g gs r

-- The registry has the list of the last fetch that succeeded, and is as before if none did: a failed
-- update, or a reply with another status, keeps the list that there was.
pub run-latest :
    (u : Unicode) (first : Fetched) (ticks : List Fetched) (r : Registry)
    → run u first ticks r ≡ with_list u (latest none (first ∷ ticks)) r
run-latest u first ticks r = run-with_list u none first ticks r
