-- ===== src/Models/Catalog/Answers.antt =====
-- What `Refresh` returns: one complete live source, or the cache marked as stale.
use mathlib.Core.Path.{subst}
use pmux.Base.{
  ℕ, Bool, true, false, ◌≡◌, refl, sym, ap, ◌∙◌, ◌⊎◌, inl, inr, Option, none, some, List, [], ◌∷◌,
  Bytes, String, All, map, bytes_lt, Bool-cases, Option-cases, if◌then◌else◌,
}
use pmux.Base.Sorting.{IsSorted, sort_by-IsSorted, All-sort_by}
use pmux.Pmuxerr.{Result, ok, err, ◌>>=◌, Err, >>=-eq-ok}
use pmux.Models.{
  CatalogEntry, Aggregate, Management, source_management, source_v1, source_cache, entry_id, render,
  render_aggregates, ModelRef, nothing_found, sorted_set,
}
use pmux.Models.Discovery.{
  discover_management, discover_public, or_wrap, visit_files, public_entries, visit_channels,
  file_name, channel_names, add_public,
}
use pmux.Models.Catalog.{
  Snapshot, Catalog, Outside, load, store, mark_favorite, overlay_favorites, mark_cached,
  cached_entries, offline_loaded, offline_from, offline_cache, refreshed, refresh_live,
  refresh_public, refresh_with, refresh_management, refresh,
}
use pmux.Models.Catalog.Showing.{
  AllShow, AllShowInOrder, overlay_favorites-AllShow, cached_entries-AllShowInOrder,
}

-- An entry with this source, this time and this mark of age.
pub record IsMarked (source : Bytes) (observed_at : ℕ) (stale : Bool) (e : CatalogEntry)
    : Type 0 where
  pub has_source : e.source ≡ source
  pub has_time : e.observed_at ≡ observed_at
  pub has_age : e.stale ≡ stale

-- Entries in order of their IDs, all of them so marked.
abbrev pub AreMarked : Bytes → ℕ → Bool → List CatalogEntry → Type 0
AreMarked source observed_at stale es =
    IsSorted entry_id es × All (IsMarked source observed_at stale) es

All-map :
    {A B : Type 0} (P : B → Type 0) (f : A → B) (xs : List A)
    → ((x : A) → P (f x))
    → All P (map f xs)
All-map P f [] h = tt
All-map P f (x ∷ xs) h = (h x, All-map P f xs h)

render_aggregates-AreMarked :
    (all : List (Bytes × Aggregate)) (source : Bytes) (now : ℕ)
    → AreMarked source now false (render_aggregates all source now)
unfolding render_aggregates render
render_aggregates-AreMarked all source now = (
  sort_by-IsSorted entry_id (map (render source now) all),
  All-sort_by entry_id (IsMarked source now false) (map (render source now) all) (
      All-map (IsMarked source now false) (render source now) all
        (λ p. record { has_source = refl; has_time = refl; has_age = refl })),
)

cached_entries-AreMarked :
    (es : List CatalogEntry) (time : ℕ) (stale : Bool)
    → AreMarked source_cache time stale (cached_entries es time stale)
unfolding cached_entries
cached_entries-AreMarked es time stale = (
  sort_by-IsSorted entry_id (map (mark_cached time stale) es),
  All-sort_by entry_id (IsMarked source_cache time stale) (map (mark_cached time stale) es) (
      All-map (IsMarked source_cache time stale) (mark_cached time stale) es
        (λ e. record { has_source = refl; has_time = refl; has_age = refl })),
)

-- Favorites change neither the order nor the marks.
All-favorites :
    (ids : List Bytes) (source : Bytes) (time : ℕ) (stale : Bool) (es : List CatalogEntry)
    → All (IsMarked source time stale) es
    → All (IsMarked source time stale) (map (mark_favorite ids) es)
unfolding mark_favorite
All-favorites ids source time stale [] h = tt
All-favorites ids source time stale (e ∷ es) (m, h) = (
  record { has_source = m.has_source; has_time = m.has_time; has_age = m.has_age },
  All-favorites ids source time stale es h,
)

below_favorites :
    (ids : List Bytes) (k : Bytes) (es : List CatalogEntry)
    → All (λ e. bytes_lt e.id k ≡ false) es
    → All (λ e. bytes_lt e.id k ≡ false) (map (mark_favorite ids) es)
unfolding mark_favorite
below_favorites ids k [] h = tt
below_favorites ids k (e ∷ es) h = (h.0, below_favorites ids k es h.1)

favorites-IsSorted :
    (ids : List Bytes) (es : List CatalogEntry)
    → IsSorted entry_id es
    → IsSorted entry_id (map (mark_favorite ids) es)
unfolding mark_favorite
favorites-IsSorted ids [] h = tt
favorites-IsSorted ids (e ∷ es) h = (below_favorites ids e.id es h.0, favorites-IsSorted ids es h.1)

overlay_favorites-AreMarked :
    (f : Option (Result (List Bytes))) (es out : List CatalogEntry) (source : Bytes) (time : ℕ)
    (stale : Bool)
    → overlay_favorites f es ≡ ok out
    → AreMarked source time stale es
    → AreMarked source time stale out
unfolding overlay_favorites
overlay_favorites-AreMarked none es out source time stale h m =
    let same : es ≡ out = cc in subst (AreMarked source time stale) same m
overlay_favorites-AreMarked (some (err e)) es out source time stale h m = cc
overlay_favorites-AreMarked (some (ok ids)) es out source time stale h m =
    let same : map (mark_favorite ids) es ≡ out = cc in
    subst (AreMarked source time stale) same
      (favorites-IsSorted ids es m.0, All-favorites ids source time stale es m.1)

-- The live source of a refresh, and its entries.
pub data Live (o : Outside) : Bytes → List CatalogEntry → Type 0 where
  from_management :
      (m : Management) (es : List CatalogEntry)
      → o.management ≡ some m
      → discover_management m o.now ≡ ok es
      → Live o source_management es
  from_public :
      (m : Management) (x : Err) (es : List CatalogEntry)
      → o.management ≡ some m
      → discover_management m o.now ≡ err x
      → discover_public m o.now x ≡ ok es
      → Live o source_v1 es

discover_management-AreMarked :
    (m : Management) (now : ℕ) (es : List CatalogEntry)
    → discover_management m now ≡ ok es
    → AreMarked source_management now false es
unfolding discover_management
discover_management-AreMarked m now es h =
    let (files, _, q) =
      >>=-eq-ok (or_wrap m.auth_files "Management model discovery failed.")
        (λ files.
          visit_files m (pmux.Base.Sorting.sort_by file_name files) nothing_found >>= λ found.
          visit_channels m found (sorted_set (channel_names found.channels)) found.models
          >>= λ models. ok (render_aggregates models source_management now))
        h in
    let (found, _, r) =
      >>=-eq-ok (visit_files m (pmux.Base.Sorting.sort_by file_name files) nothing_found)
        (λ found.
          visit_channels m found (sorted_set (channel_names found.channels)) found.models
          >>= λ models. ok (render_aggregates models source_management now))
        q in
    let (models, _, s) =
      >>=-eq-ok (visit_channels m found (sorted_set (channel_names found.channels)) found.models)
        (λ models. ok (render_aggregates models source_management now)) r in
    let same : render_aggregates models source_management now ≡ es = cc in
    subst (AreMarked source_management now false) same
      (render_aggregates-AreMarked models source_management now)

public_entries-AreMarked :
    (now : ℕ) (x : Err) (r : Result (List ModelRef)) (es : List CatalogEntry)
    → public_entries now x r ≡ ok es
    → AreMarked source_v1 now false es
unfolding public_entries
public_entries-AreMarked now x (err e) es h = cc
public_entries-AreMarked now x (ok refs) es h =
    let same : render_aggregates (add_public refs []) source_v1 now ≡ es = cc in
    subst (AreMarked source_v1 now false) same
      (render_aggregates-AreMarked (add_public refs []) source_v1 now)

discover_public-AreMarked :
    (m : Management) (now : ℕ) (x : Err) (es : List CatalogEntry)
    → discover_public m now x ≡ ok es
    → AreMarked source_v1 now false es
unfolding discover_public
discover_public-AreMarked m now x es h = public_entries-AreMarked now x m.public_models es h

Live-AreMarked :
    {o : Outside} {source : Bytes} {es : List CatalogEntry}
    → Live o source es
    → AreMarked source o.now false es
Live-AreMarked {o} (from_management m es h d) = discover_management-AreMarked m o.now es d
Live-AreMarked {o} (from_public m x es h d p) = discover_public-AreMarked m o.now x es p

-- What `Refresh` returns, and the catalogue after it: an error with the state of the catalogue as it
-- was; or entries that show those of a live source, which the cache may then hold; or, if both live sources
-- failed, the snapshot of the cache marked as stale, with the cache as it was.
pub data Answers (o : Outside) (c : Catalog) : Result (List CatalogEntry) × Catalog → Type 0 where
  refused : (e : Err) (c' : Catalog) → c'.state ≡ c.state → Answers o c (err e, c')
  fresh :
      (source : Bytes) (live es : List CatalogEntry) (c' : Catalog)
      → Live o source live
      → AllShow o.favorites live es
      → AreMarked source o.now false es
      → c'.state.stale ≡ false
      → c'.state.source ≡ source
      → (c'.cached ≡ c.cached)
        ⊎ (c'.cached ≡ some (record { fetched_at = o.now; source = source; entries = live }))
      → Answers o c (ok es, c')
  offline :
      (m : Management) (x y : Err) (snapshot : Snapshot) (es : List CatalogEntry) (c' : Catalog)
      → o.management ≡ some m
      → discover_management m o.now ≡ err x
      → discover_public m o.now x ≡ err y
      → c.cached ≡ some snapshot
      → AllShowInOrder o.favorites snapshot.entries es
      → AreMarked source_cache snapshot.fetched_at true es
      → c'.state.stale ≡ true
      → c'.cached ≡ c.cached
      → Answers o c (ok es, c')

stored :
    (there : Bool) (e : Option Err) (snapshot : Snapshot) (cached : Option Snapshot)
    → ((store there e snapshot cached).0 ≡ cached)
      ⊎ ((store there e snapshot cached).0 ≡ some snapshot)
stored false e snapshot cached = inl refl
stored true none snapshot cached = inr refl
stored true (some e) snapshot cached = inl refl

module _ (o : Outside) (c : Catalog) where
  refreshed-Answers :
      (source : Bytes) (live : List CatalogEntry) (warning : String)
      (r : Result (List CatalogEntry)) (cached : Option Snapshot)
      → Live o source live
      → overlay_favorites o.favorites live ≡ r
      → (cached ≡ c.cached)
        ⊎ (cached ≡ some (record { fetched_at = o.now; source = source; entries = live }))
      → Answers o c (refreshed o source warning r (record c { cached = cached }))
  unfolding refreshed
  refreshed-Answers source live warning (err e) cached l h k = refused e _ refl
  refreshed-Answers source live warning (ok es) cached l h k =
      fresh source live es _ l (overlay_favorites-AllShow o.favorites live es h)
        (overlay_favorites-AreMarked o.favorites live es source o.now false h (Live-AreMarked l))
        refl refl k

  refresh_live-Answers :
      (source : Bytes) (live : List CatalogEntry)
      → Live o source live
      → Answers o c (refresh_live o source live c)
  unfolding refresh_live
  refresh_live-Answers source live l =
      let snapshot : Snapshot = record { fetched_at = o.now; source = source; entries = live } in
      refreshed-Answers source live (store o.cache_there o.store_error snapshot c.cached).1
        (overlay_favorites o.favorites live) (store o.cache_there o.store_error snapshot c.cached).0
        l refl (stored o.cache_there o.store_error snapshot c.cached)

  module _ (m : Management) (x y : Err) (there : o.management ≡ some m)
      (no_management : discover_management m o.now ≡ err x)
      (no_public : discover_public m o.now x ≡ err y) where
    offline_loaded-Answers :
        (snapshot : Snapshot) (r : Result (List CatalogEntry))
        → c.cached ≡ some snapshot
        → overlay_favorites o.favorites snapshot.entries ≡ r
        → Answers o c (offline_loaded o y snapshot r c)
    unfolding offline_loaded
    offline_loaded-Answers snapshot (err e) h s = refused e c refl
    offline_loaded-Answers snapshot (ok es) h s =
        offline m x y snapshot (cached_entries es snapshot.fetched_at true) _ there no_management
          no_public h
          (cached_entries-AllShowInOrder o.favorites snapshot.fetched_at true snapshot.entries es
            (overlay_favorites-AllShow o.favorites snapshot.entries es s))
          (cached_entries-AreMarked es snapshot.fetched_at true) refl refl

    offline_from-Answers :
        (e : Option Err) (cached : Option Snapshot)
        → c.cached ≡ cached
        → Answers o c (offline_from o y (load e cached) c)
    unfolding offline_from
    offline_from-Answers (some e) cached h = refused _ c refl
    offline_from-Answers none none h = refused _ c refl
    offline_from-Answers none (some snapshot) h =
        offline_loaded-Answers snapshot (overlay_favorites o.favorites snapshot.entries) h refl

    offline_cache-Answers : Answers o c (offline_cache o y c)
    unfolding offline_cache
    offline_cache-Answers = guarded o.cache_there
      where
        guarded :
            (b : Bool)
            → Answers o c
                (if b then offline_from o y (load o.load_error c.cached) c else (err y, c))
        guarded true = offline_from-Answers o.load_error c.cached refl
        guarded false = refused y c refl

  refresh_public-Answers :
      (m : Management) (x : Err) (r : Result (List CatalogEntry))
      → o.management ≡ some m
      → discover_management m o.now ≡ err x
      → discover_public m o.now x ≡ r
      → Answers o c (refresh_public o r c)
  unfolding refresh_public
  refresh_public-Answers m x (err y) t d p = offline_cache-Answers m x y t d p
  refresh_public-Answers m x (ok es) t d p =
      refresh_live-Answers source_v1 es (from_public m x es t d p)

  refresh_with-Answers :
      (m : Management) (r : Result (List CatalogEntry))
      → o.management ≡ some m
      → discover_management m o.now ≡ r
      → Answers o c (refresh_with o m r c)
  unfolding refresh_with
  refresh_with-Answers m (ok es) t d =
      refresh_live-Answers source_management es (from_management m es t d)
  refresh_with-Answers m (err x) t d =
      refresh_public-Answers m x (discover_public m o.now x) t d refl

  refresh_management-Answers :
      (management : Option Management)
      → o.management ≡ management
      → Answers o c (refresh_management o management c)
  unfolding refresh_management
  refresh_management-Answers none t = refused _ c refl
  refresh_management-Answers (some m) t =
      refresh_with-Answers m (discover_management m o.now) t refl

-- `Refresh`, whichever calls fail, returns an error with the state of the catalogue as it was; or the
-- entries of one complete live source, each with its ID, owner, providers, accounts and availability,
-- in order of their IDs and marked as fresh, and has left the cache or put that source's entries into
-- it; or, if the management discovery and the public one both failed, the entries of the cached
-- snapshot with the same, each of them once, in order of their IDs and marked as stale, with the cache
-- as it was. Where there are favorites an entry is marked as one exactly if its ID is among them, else
-- its mark is kept. The state of the catalogue says fresh or stale as the entries do.
pub refresh-Answers : (o : Outside) (c : Catalog) → Answers o c (refresh o c)
unfolding refresh
refresh-Answers o c = refresh_management-Answers o c o.management refl
