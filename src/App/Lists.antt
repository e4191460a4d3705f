-- ===== src/App/Lists.antt =====
-- The lists of domains and prefixes in a running process: `New` of internal/app/app.go, and
-- internal/validation/disposable/updater.go. What the source answers is a parameter.
pub mod Latest
use mailclear.Base.{ℕ, List, [], ◌∷◌, Option, none, some, take, ◌==◌, if◌then◌else◌}
use mailclear.Text.{Text, Unicode, lit, contains}
use mailclear.Lookups.Registry.{Registry, load_domains, load_string}
use mailclear.Lookups.Detector.{Detector, load_list}
use mailclear.Lookups.Registry
use mailclear.Lookups.Detector
use mailclear.Storage.Disposable.{RolePrefix, prefixes_of}

-- the list of the database, if it has one, in place of the embedded one
unfoldable pub boot_registry :
    Unicode → (embedded : Text) → (listed : Option (List Text)) → Registry
unfolding Registry.new load_domains
boot_registry u embedded none = Registry.new u embedded
boot_registry u embedded (some []) = Registry.new u embedded
boot_registry u embedded (some (d ∷ ds)) = load_domains u (d ∷ ds) (Registry.new u embedded)

unfoldable pub boot_detector :
    Unicode → (embedded : Text) → (prefixes : Option (List RolePrefix)) → Detector
unfolding Detector.new load_list prefixes_of
boot_detector u embedded none = Detector.new u embedded
boot_detector u embedded (some []) = Detector.new u embedded
boot_detector u embedded (some (p ∷ ps)) =
    load_list u (prefixes_of (p ∷ ps)) (Detector.new u embedded)

-- what the GET of `RunOnce` gives: no request or reply, or a status with a body or the error of its read
pub data Fetched : Type 0 where
  no_reply : Text → Fetched
  reply : (status : ℕ) → (body : Option Text) → Fetched

-- `RunOnce`, whose error is dropped by `Run`; 8 MiB of the body are read
unfoldable pub run_once : Unicode → Fetched → Registry → Registry
unfolding load_string
run_once u (no_reply _) r = r
run_once u (reply status none) r = r
run_once u (reply status (some body)) r =
    if status == 200 then load_string u (take 8388608 body) r else r

-- `Run`, over what its first fetch and the ticks before the end of the context give
unfoldable pub run : Unicode → (first : Fetched) → (ticks : List Fetched) → Registry → Registry
unfolding run_once
run u first [] r = run_once u first r
run u first (t ∷ ts) r = run u t ts (run_once u first r)

-- `detectSelfUnit`, from the last part of the path of the binary
unfoldable pub detect_self_unit : Text → Text
detect_self_unit base =
    if contains base (lit "mailclear-api")
    then lit "mailclear-api.service"
    else if contains base (lit "mailclear-worker")
    then lit "mailclear-worker.service"
    else []
