-- ===== src/Server/Routes.antt =====
-- The table of routes of `Build` in internal/server/router.go. chi, which is not modelled, matches a
-- path against the patterns. A group of routes is registered only where its handlers are given.
use mailclear.Base.{Bool, true, false, not, ◌&&◌, ◌||◌, List, [], ◌∷◌, ◌++◌, ◌≡◌, refl}
use mailclear.Text.{Text, lit, text_eq}

pub data Method : Type 0 where
  get post any : Method

-- the handlers by their names
pub data Endpoint : Type 0 where
  dashboard_index health_live health_ready prometheus : Endpoint
  admin_status clear_cache reload_disposable cancel_all_running : Endpoint
  restart_service logs logs_stream force_fail : Endpoint
  validate_single validate_batch import_csv : Endpoint
  jobs_list jobs_get jobs_results jobs_export_csv jobs_cancel jobs_requeue stats_global : Endpoint

pub record Route : Type 0 where
  pub method : Method
  pub pattern : Text
  pub endpoint : Endpoint

unfoldable pub route : Method → Text → Endpoint → Route
route m p e = record { method = m; pattern = p; endpoint = e }

-- `Route`: the routes of a group under its prefix
unfoldable pub under : Text → List Route → List Route
under prefix [] = []
under prefix (r ∷ rs) = record r { pattern = prefix ++ r.pattern } ∷ under prefix rs

unfoldable pub when : Bool → List Route → List Route
when true rs = rs
when false rs = []

unfoldable pub health_routes : List Route
unfolding route
health_routes =
    route get (lit "/healthz") health_live
    ∷ route get (lit "/readyz") health_ready
    ∷ route any (lit "/metrics") prometheus
    ∷ []

unfoldable pub admin_routes : List Route
unfolding route
admin_routes =
    route get (lit "/admin/status") admin_status
    ∷ route post (lit "/admin/cache/clear") clear_cache
    ∷ route post (lit "/admin/disposable/reload") reload_disposable
    ∷ route post (lit "/admin/jobs/cancel-all") cancel_all_running
    ∷ []

unfoldable pub admin_ops_routes : List Route
unfolding route
admin_ops_routes =
    route post (lit "/admin/services/restart") restart_service
    ∷ route get (lit "/admin/logs") logs
    ∷ route get (lit "/admin/logs/stream") logs_stream
    ∷ route post (lit "/admin/jobs/{id}/force-fail") force_fail
    ∷ []

unfoldable pub job_routes : List Route
unfolding route
job_routes =
    route get (lit "/") jobs_list
    ∷ route get (lit "/{id}") jobs_get
    ∷ route get (lit "/{id}/results") jobs_results
    ∷ route get (lit "/{id}/export.csv") jobs_export_csv
    ∷ route post (lit "/{id}/cancel") jobs_cancel
    ∷ route post (lit "/{id}/requeue") jobs_requeue
    ∷ []

unfoldable pub api_routes : List Route
unfolding route under job_routes
api_routes =
    route post (lit "/validate") validate_single
    ∷ route post (lit "/validate/batch") validate_batch
    ∷ route post (lit "/import/csv") import_csv
    ∷ (under (lit "/jobs") job_routes ++ (route get (lit "/stats") stats_global ∷ []))

-- `Build`, where the arguments tell which handlers are given
unfoldable pub build : (dashboard admin admin_ops : Bool) → List Route
unfolding route when under health_routes admin_routes admin_ops_routes api_routes
build dashboard admin admin_ops =
    when dashboard (route get (lit "/") dashboard_index ∷ [])
    ++ (health_routes
        ++ (when admin admin_routes
            ++ (when admin_ops admin_ops_routes ++ under (lit "/api/v1") api_routes)))

-- `any` stands for every method
unfoldable pub overlaps : Method → Method → Bool
overlaps get post = false
overlaps post get = false
overlaps _ _ = true

-- a route for the same method and pattern
unfoldable pub clashes : Route → List Route → Bool
unfolding overlaps
clashes r [] = false
clashes r (s ∷ rs) = (overlaps r.method s.method && text_eq r.pattern s.pattern) || clashes r rs

unfoldable pub is_unambiguous : List Route → Bool
unfolding clashes
is_unambiguous [] = true
is_unambiguous (r ∷ rs) = not (clashes r rs) && is_unambiguous rs

-- No two routes have a method and the pattern in common, whichever handlers are given.
pub build_unambiguous :
    (dashboard admin admin_ops : Bool) → is_unambiguous (build dashboard admin admin_ops) ≡ true
unfolding is_unambiguous build text_eq lit
build_unambiguous true true true = refl
build_unambiguous true true false = refl
build_unambiguous true false true = refl
build_unambiguous true false false = refl
build_unambiguous false true true = refl
build_unambiguous false true false = refl
build_unambiguous false false true = refl
build_unambiguous false false false = refl
