-- ===== src/Server/AdminHandlers.antt =====
-- internal/server/handlers/admin.go. Redis is the list of its keys; `scanned` is what the iterator of
-- SCAN gives, and `del_ok k` whether the k-th DEL succeeds, whose error `ClearCache` drops. `Status`
-- is in Server/StatusPage, over the map of the services and the line of INFO that are here.
pub mod Cleared
use mailclear.Base.{
  ℕ, zero, suc, ◌+◌, ◌-◌, Bool, true, false, not, ◌||◌, List, [], ◌∷◌, ◌++◌, Option, none, some,
  length, leb, ltb, ◌==◌, if◌then◌else◌, drop,
}
use mailclear.Text.{Text, lit, member, has_prefix, Unicode, is_empty}
use mailclear.Jobs.Repo.{Job, is_unlockable, cancel}
use mailclear.Cache.Lru.{Entry, Store}
use mailclear.Cache.Redis.{Client, Codec}
use mailclear.Cache.Multi.{Layers, purge_l1}
use mailclear.Lookups.Registry.{Registry, load_domains}
use mailclear.Server.Http.{Reply, refuse, answer}

-- `DEL`
unfoldable pub del : (ok : Bool) → List Text → List Text → List Text
del ok keys [] = []
del ok keys (k ∷ store) =
    let rest = del ok keys store in
    if ok then (if member k keys then rest else k ∷ rest) else k ∷ rest

-- the keys that wait for a DEL, the DELs so far, the counter of deleted keys, and Redis
pub record Clearing : Type 0 where
  pub keys : List Text
  pub dels : ℕ
  pub deleted : ℕ
  pub store : List Text

-- a DEL of the keys that wait
unfoldable pub del_keys : (del_ok : ℕ → Bool) → Clearing → Clearing
unfolding del
del_keys del_ok c = record {
  keys = [];
  dels = suc c.dels;
  deleted = c.deleted + length c.keys;
  store = del (del_ok c.dels) c.keys c.store;
}

-- the loop over the iterator
unfoldable pub scan_keys : (del_ok : ℕ → Bool) → List Text → Clearing → Clearing
unfolding del_keys
scan_keys del_ok [] c = c
scan_keys del_ok (k ∷ scanned) c =
    let c' = record c { keys = c.keys ++ (k ∷ []) } in
    scan_keys del_ok scanned (if leb 1000 (length c'.keys) then del_keys del_ok c' else c')

-- the part of `ClearCache` on Redis
unfoldable pub clear_redis : (del_ok : ℕ → Bool) → (scanned store : List Text) → Clearing
unfolding scan_keys
clear_redis del_ok scanned store =
    let c = scan_keys del_ok scanned (record { keys = []; dels = 0; deleted = 0; store = store }) in
    if ltb 0 (length c.keys) then del_keys del_ok c else c

-- `ReloadDisposable`, where the registry and the repository are there unless `absent`
unfoldable pub reload_disposable :
    Unicode → (absent : Bool) → (listed : Option (List Text)) → Registry → Reply ℕ × Registry
unfolding load_domains
reload_disposable u absent listed r =
    if absent then (refuse 503 (lit "NOT_AVAILABLE"), r) else elim listed [
      | none ↦ (refuse 500 (lit "DB_ERROR"), r)
      | some domains ↦ (answer 200 (length domains), load_domains u domains r)
    ]

-- the `UPDATE` of `CancelAllRunning`, with the number of rows
unfoldable pub cancel_all : (now : ℕ) → List Job → ℕ × List Job
unfolding cancel is_unlockable
cancel_all now [] = (0, [])
cancel_all now (j ∷ js) =
    let (n, js') = cancel_all now js in
    (if is_unlockable j.status then suc n else n, cancel now j ∷ js')

-- `CancelAllRunning`
unfoldable pub cancel_all_running :
    (db_err : Option Text) → (now : ℕ) → List Job → Reply ℕ × List Job
unfolding cancel_all
cancel_all_running (some _) now jobs = (refuse 500 (lit "DB_ERROR"), jobs)
cancel_all_running none now jobs = let (n, jobs') = cancel_all now jobs in (answer 200 n, jobs')

-- the text up to the end of the line
unfoldable pub until_eol : Text → Text
until_eol [] = []
until_eol (c ∷ s) = let rest = until_eol s in if (c == 13) || (c == 10) then [] else c ∷ rest

-- `extractInfoLine`, for a prefix that is not empty
unfoldable pub extract_info_line : (info prefix : Text) → Text
unfolding until_eol
extract_info_line [] prefix = []
extract_info_line (c ∷ s) prefix =
    let rest = extract_info_line s prefix in
    if has_prefix (c ∷ s) prefix then until_eol (drop (length prefix) (c ∷ s)) else rest

-- the map of the services of `Status`, whose probes are independent
unfoldable pub services : (db redis dns : Option Bool) → List (Text × Text)
services db redis dns =
    let entry : Text → Option Bool → List (Text × Text) = λ name up. elim up [
      | none ↦ []
      | some ok ↦ (name, if ok then lit "ok" else lit "fail") ∷ []
    ] in
    (lit "api", lit "ok")
    ∷ (entry (lit "db") db ++ (entry (lit "redis") redis ++ entry (lit "dns") dns))

-- `ClearCache`, where the cache or the client of Redis may be nil; `scanned` is what its iterator gives
module _ {ℓ} {V : Type ℓ} (m : Store (Entry V)) (cli : Client) (codec : Codec V)
    (prefix : Text) where
  unfoldable pub clear_cache :
      (del_ok : ℕ → Bool)
      → Option (Layers m cli codec prefix)
      → (scanned : List Text) → (redis : Option (List Text))
      → Reply ℕ × (Option (Layers m cli codec prefix) × Option (List Text))
  unfolding purge_l1 clear_redis
  clear_cache del_ok dns_cache scanned redis =
      let dns_cache' : Option (Layers m cli codec prefix) = elim dns_cache [
        | none ↦ none
        | some c ↦ some (purge_l1 m cli codec prefix c)
      ] in
      elim redis [
        | none ↦ (answer 200 0, (dns_cache', none))
        | some store ↦
            let c = clear_redis del_ok scanned store in
            (answer 200 c.deleted, (dns_cache', some c.store))
      ]
