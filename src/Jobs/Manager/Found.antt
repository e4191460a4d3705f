-- ===== src/Jobs/Manager/Found.antt =====
-- What `Get` finds after the operations of `Jobs.Manager`.
use mailclear.Base.{
  ℕ, ◌≡◌, sym, ◌∙◌, subst, inl, inr, List, [], ◌∷◌, Option, none, some, Bool-cases, arith,
  if◌then◌else◌, true, false, ◌⊎◌, ◌≢◌,
}
use mailclear.Text.{Text, lit, text_eq}
use mailclear.Text.Equality.{text_eq_sound, text_eq_refl}
use mailclear.Jobs.Repo.{Job, pending}
use mailclear.Jobs.Repo
use mathlib.Core.Option
use mailclear.Jobs.Manager.{JobRow, get, on_row, with_job}

-- a new row, which is pending, with nothing processed
abbrev pub new_row : (now : ℕ) (id name source : Text) (total : ℕ) (metadata : Text) → JobRow
new_row now id name source total metadata = record {
  id = id;
  name = name;
  source = source;
  metadata = metadata;
  job = record {
    status = pending;
    total = total;
    counts = record {
      processed = 0;
      valid = 0;
      invalid = 0;
      risky = 0;
      unknown = 0;
      disposable = 0;
    };
    updated_at = now;
    started_at = none;
    finished_at = none;
    last_error = none;
  };
}

module _ {Value : Type 0} (marshal : Value → Option Text) where
  -- the column that is written for some metadata
  abbrev pub IsColumn : Option Value → Text → Type 0
  IsColumn none raw = raw ≡ lit "{}"
  IsColumn (some v) raw = marshal v ≡ some raw

  abbrev pub CannotMarshal : Option Value → Type 0
  CannotMarshal none = ⊥
  CannotMarshal (some v) = marshal v ≡ none

  -- what `Create` leaves: a new row that `Get` finds, or the table as it was
  abbrev pub IsCreated :
      (db_err : Option Text) (metadata : Option Value) (id k : Text) (row : Text → JobRow)
      (rows : List JobRow)
      → Option JobRow × List JobRow
      → Type 0
  IsCreated db_err metadata id k row rows (made, rows') =
      ((raw : Text) × (db_err ≡ none)
        × IsColumn metadata raw
        × (made ≡ some (row raw))
        × (get k rows' ≡ (if text_eq id k then some (row raw) else get k rows)))
      ⊎ (((db_err ≢ none) ⊎ CannotMarshal metadata) × (made ≡ none) × (rows' ≡ rows))

-- A statement on the row of a job changes what `Get` finds for that job and for no other.
pub get-on_row :
    (id k : Text) (f : Job → Job) (rows : List JobRow)
    → get k (on_row id f rows)
      ≡ (if text_eq id k then Option.map (with_job f) (get k rows) else get k rows)
unfolding get on_row
get-on_row id k f [] = ground arith
get-on_row id k f (x ∷ rows) =
    let ih = get-on_row id k f rows in
    let same = text_eq_sound x.id id in
    elim (Bool-cases (text_eq x.id id)) [
      | inl e ↦ elim (Bool-cases (text_eq id k)) [
        | inl f' ↦ let there = subst (λ t. text_eq t k ≡ true) (sym (same e)) f' in ground arith
        | inr f' ↦ let there = subst (λ t. text_eq t k ≡ false) (sym (same e)) f' in ground arith
      ]
      | inr e ↦ elim (Bool-cases (text_eq x.id k)) [
        | inl f' ↦ elim (Bool-cases (text_eq id k)) [
          | inl g ↦
              let swapped =
                subst (λ t. text_eq t id ≡ true)
                  (text_eq_sound id k g ∙ sym (text_eq_sound x.id k f')) (text_eq_refl id) in
              absurd (ground arith)
          | inr g ↦ ground arith
        ]
        | inr f' ↦ ground arith
      ]
    ]
