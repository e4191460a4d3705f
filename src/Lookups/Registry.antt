-- ===== src/Lookups/Registry.antt =====
-- internal/validation/disposable/registry.go.
use mailclear.Base.{ℕ, Bool, List, [], ◌∷◌, if◌then◌else◌, length}
use mailclear.Text.{Text, Unicode, to_lower, trim_space, is_empty, split, member, insert}
use mailclear.Text.Lines.{is_skipped}

pub record Registry : Type 0 where
  pub set : List Text

module _ (u : Unicode) where
  -- the loop of `LoadString` over the lines
  unfoldable pub add_lines : List Text → List Text → List Text
  add_lines [] new_set = new_set
  add_lines (raw ∷ lines) new_set =
      let line = trim_space u (to_lower u raw) in
      add_lines lines (if is_skipped line then new_set else insert line new_set)

  unfoldable pub load_string : Text → Registry → Registry
  load_string raw r = record r { set = add_lines (split 10 raw) [] }

  -- the loop of `LoadDomains`
  unfoldable pub add_domains : List Text → List Text → List Text
  add_domains [] new_set = new_set
  add_domains (raw ∷ domains) new_set =
      let d = trim_space u (to_lower u raw) in
      add_domains domains (if is_empty d then new_set else insert d new_set)

  unfoldable pub load_domains : List Text → Registry → Registry
  load_domains domains r = record r { set = add_domains domains [] }

  -- `New`, from the text of the embedded list
  unfoldable pub new : Text → Registry
  unfolding load_string
  new disposable_domains = load_string disposable_domains (record { set = [] })

  -- `Contains`
  unfoldable pub has : Registry → Text → Bool
  has r domain = member (to_lower u (trim_space u domain)) r.set

unfoldable pub size : Registry → ℕ
size r = length r.set
