-- ===== src/Models/Catalog.antt =====
-- The methods of `Catalog` of internal/adapter/models/catalog.go.
pub mod Answers
pub mod Showing
use Prim.Native.String.{◌++◌ as concat}
use pmux.Base.{
  ℕ, zero, ◌-◌, Bool, true, false, ◌||◌, Option, none, some, List, [], ◌∷◌, Bytes, String, map, ltb,
  bytes_eq, if◌then◌else◌, ◌==◌,
}
use pmux.Base.Assoc.{insert}
use pmux.Pmuxerr.{
  Result, ok, err, ◌>>=◌, Err, new_error, wrap, joined, foreign, error_message, config_unreadable,
  management_unreachable, unhandled_internal, environment, upstream, internal,
}
use pmux.Redact.{member}
use pmux.Models.{CatalogEntry, Management, source_management, source_v1, source_cache, sort_entries}
use pmux.Models.Discovery.{discover_management, discover_public}
use pmux.Models.Browsing.{Query, filter}

pub record Snapshot : Type 0 where
  pub fetched_at : ℕ
  pub source : Bytes
  pub entries : List CatalogEntry

pub record State : Type 0 where
  pub source : Bytes
  pub fetched_at : ℕ
  pub stale : Bool
  pub warning : String

-- What `Cache.Load` returns: `missing` is `ErrCacheMiss`.
pub data Loaded : Type 0 where
  missing : Loaded
  broken : Err → Loaded
  loaded : Snapshot → Loaded

-- `Catalog`: the snapshot that its cache holds under the catalogue's key, and its state.
pub record Catalog : Type 0 where
  pub cached : Option Snapshot
  pub state : State

-- What a method meets outside. `max_age` and the times are nanoseconds; `rfc3339` formats a time;
-- `favorites` is `none` where there are none, and `cache_there` false where there is no cache.
pub record Outside : Type 0 where
  pub management : Option Management
  pub cache_there : Bool
  pub load_error : Option Err
  pub store_error : Option Err
  pub favorites : Option (Result (List Bytes))
  pub max_age : ℕ
  pub now : ℕ
  pub rfc3339 : ℕ → String

abbrev pub cache_miss : Err
cache_miss = foreign "model cache miss"

-- `Cache.Load`.
abbrev pub load : Option Err → Option Snapshot → Loaded
load (some e) cached = broken e
load none none = missing
load none (some snapshot) = loaded snapshot

-- `Cache.Store`.
abbrev pub store : Bool → Option Err → Snapshot → Option Snapshot → Option Snapshot × String
store false e snapshot cached = (cached, "")
store true none snapshot cached = (some snapshot, "")
store true (some e) snapshot cached =
    (cached, "Live models were discovered, but the model cache could not be saved.")

unfoldable pub mark_favorite : List Bytes → CatalogEntry → CatalogEntry
unfolding member
mark_favorite ids e = record e { favorite = member e.id ids }

-- `overlayFavorites`.
unfoldable pub overlay_favorites :
    Option (Result (List Bytes)) → List CatalogEntry → Result (List CatalogEntry)
unfolding mark_favorite
overlay_favorites none entries = ok entries
overlay_favorites (some (err e)) entries =
    err (wrap e config_unreadable environment "Could not load model favorites.")
overlay_favorites (some (ok ids)) entries = ok (map (mark_favorite ids) entries)

abbrev pub mark_cached : ℕ → Bool → CatalogEntry → CatalogEntry
mark_cached fetched_at stale e = record e {
  source = source_cache;
  observed_at = fetched_at;
  stale = stale;
}

-- `cachedEntries`.
unfoldable pub cached_entries : List CatalogEntry → ℕ → Bool → List CatalogEntry
unfolding sort_entries
cached_entries entries fetched_at stale = sort_entries (map (mark_cached fetched_at stale) entries)

abbrev is_stale : Outside → ℕ → Bool
is_stale o fetched_at = fetched_at == 0 || ltb o.max_age (o.now - fetched_at)

abbrev age_warning : Outside → ℕ → String
age_warning o fetched_at =
    concat "Showing models cached at "
      (concat (o.rfc3339 fetched_at) "; model list may be outdated.")

-- `List` with the entries that carry the favorites.
unfoldable pub list_loaded :
    Outside → Snapshot → Result (List CatalogEntry) → Catalog → Result (List CatalogEntry) × Catalog
unfolding cached_entries
list_loaded o snapshot (err e) c = (err e, c)
list_loaded o snapshot (ok entries) c =
    let stale = is_stale o snapshot.fetched_at in
    (
      ok (cached_entries entries snapshot.fetched_at stale),
      record c {
        state = record {
          source = source_cache;
          fetched_at = snapshot.fetched_at;
          stale = stale;
          warning = if stale then age_warning o snapshot.fetched_at else "";
        };
      },
    )

unfoldable pub list_cache : Outside → Loaded → Catalog → Result (List CatalogEntry) × Catalog
unfolding overlay_favorites list_loaded
list_cache o missing c = (
  err (
      wrap cache_miss config_unreadable environment
        "No model catalog has been cached; run `pmux models list --refresh`."),
  c,
)
list_cache o (broken e) c =
    (err (wrap e config_unreadable environment "Could not read the model cache."), c)
list_cache o (loaded snapshot) c =
    list_loaded o snapshot (overlay_favorites o.favorites snapshot.entries) c

-- `List`.
unfoldable pub list : Outside → Catalog → Result (List CatalogEntry) × Catalog
unfolding list_cache
list o c =
    if o.cache_there
    then list_cache o (load o.load_error c.cached) c
    else (err (new_error config_unreadable environment "Model cache is not configured."), c)

-- `Query`.
unfoldable pub query : Outside → Query → Catalog → Result (List CatalogEntry) × Catalog
unfolding list filter
query o q c = let (r, c') = list o c in (r >>= λ entries. ok (filter entries q), c')

-- The loop of `Attribution`.
unfoldable pub attribute : List CatalogEntry → List (Bytes × List Bytes) → List (Bytes × List Bytes)
attribute [] result = result
attribute (e ∷ es) result = attribute es (insert e.id e.providers result)

-- `Attribution`.
unfoldable pub attribution : Outside → Catalog → Result (List (Bytes × List Bytes)) × Catalog
unfolding list attribute
attribution o c = let (r, c') = list o c in (r >>= λ entries. ok (attribute entries []), c')

-- `offlineCache` with the entries that carry the favorites.
unfoldable pub offline_loaded :
    Outside
    → Err
    → Snapshot
    → Result (List CatalogEntry)
    → Catalog
    → Result (List CatalogEntry) × Catalog
unfolding cached_entries
offline_loaded o live_error snapshot (err e) c = (err e, c)
offline_loaded o live_error snapshot (ok entries) c = (
  ok (cached_entries entries snapshot.fetched_at true),
  record c {
    state = record {
      source = source_cache;
      fetched_at = snapshot.fetched_at;
      stale = true;
      warning = concat "Showing models cached at " (
          concat (o.rfc3339 snapshot.fetched_at) (
            concat "; model list may be outdated (live discovery failed: "
              (concat (error_message live_error) ").")));
    };
  },
)

unfoldable pub offline_from :
    Outside → Err → Loaded → Catalog → Result (List CatalogEntry) × Catalog
unfolding overlay_favorites offline_loaded
offline_from o live_error missing c = (err live_error, c)
offline_from o live_error (broken e) c = (
  err (
      wrap (joined live_error e) management_unreachable environment
        "Live model discovery failed and the cached catalog could not be read."),
  c,
)
offline_from o live_error (loaded snapshot) c =
    offline_loaded o live_error snapshot (overlay_favorites o.favorites snapshot.entries) c

-- `offlineCache`.
unfoldable pub offline_cache : Outside → Err → Catalog → Result (List CatalogEntry) × Catalog
unfolding offline_from
offline_cache o live_error c =
    if o.cache_there
    then offline_from o live_error (load o.load_error c.cached) c
    else (err live_error, c)

-- The end of `Refresh`, from the return of `overlayFavorites` on.
unfoldable pub refreshed :
    Outside
    → Bytes
    → String
    → Result (List CatalogEntry)
    → Catalog
    → Result (List CatalogEntry) × Catalog
refreshed o source warning (err e) c = (err e, c)
refreshed o source warning (ok entries) c = (
  ok entries,
  record c {
    state = record { source = source; fetched_at = o.now; stale = false; warning = warning };
  },
)

-- `Refresh` with the entries of one complete live source.
unfoldable pub refresh_live :
    Outside → Bytes → List CatalogEntry → Catalog → Result (List CatalogEntry) × Catalog
unfolding overlay_favorites refreshed
refresh_live o source entries c =
    let (cached, warning) =
      store o.cache_there o.store_error
        (record { fetched_at = o.now; source = source; entries = entries }) c.cached in
    refreshed o source warning (overlay_favorites o.favorites entries)
      (record c { cached = cached })

-- `Refresh` after the management discovery failed.
unfoldable pub refresh_public :
    Outside → Result (List CatalogEntry) → Catalog → Result (List CatalogEntry) × Catalog
unfolding refresh_live offline_cache
refresh_public o (ok entries) c = refresh_live o source_v1 entries c
refresh_public o (err e) c = offline_cache o e c

unfoldable pub refresh_with :
    Outside
    → Management
    → Result (List CatalogEntry)
    → Catalog
    → Result (List CatalogEntry) × Catalog
unfolding refresh_live refresh_public discover_public
refresh_with o m (ok entries) c = refresh_live o source_management entries c
refresh_with o m (err e) c = refresh_public o (discover_public m o.now e) c

unfoldable pub refresh_management :
    Outside → Option Management → Catalog → Result (List CatalogEntry) × Catalog
unfolding refresh_with discover_management
refresh_management o none c =
    (err (new_error unhandled_internal internal "Model management client is not configured."), c)
refresh_management o (some m) c = refresh_with o m (discover_management m o.now) c

-- `Refresh`.
unfoldable pub refresh : Outside → Catalog → Result (List CatalogEntry) × Catalog
unfolding refresh_management
refresh o c = refresh_management o o.management c
