-- ===== src/Models/Catalog/Showing.antt =====
-- How the entries that `overlayFavorites` and `cachedEntries` give stand to those that they are given.
use mathlib.Core.List.{Memᴰ, Permᴰ}
use pmux.Base.{
  ℕ, Bool, true, ◌||◌, ◌≡◌, ◌↔◌, refl, sym, Option, none, some, List, [], ◌∷◌, Bytes, map, bytes_eq,
  bytes_eq_refl, bytes_eq_sound, Bool-cases, inl, inr,
}
use pmux.Base.Sorting.{sort_by-Perm}
use pmux.Pmuxerr.{Result, ok, err}
use pmux.Redact.{member}
use pmux.Models.{CatalogEntry, entry_id, sort_entries}
use pmux.Models.Catalog.{mark_favorite, overlay_favorites, mark_cached, cached_entries}

-- The mark of a favorite: as it was where there are no favorites, else whether the ID is one of them.
abbrev pub IsFavorite : Option (Result (List Bytes)) → CatalogEntry → CatalogEntry → Type 0
IsFavorite none e s = s.favorite ≡ e.favorite
IsFavorite (some (err x)) e s = ⊥
IsFavorite (some (ok ids)) e s = (s.favorite ≡ true) ↔ Memᴰ e.id ids

-- The second entry shows the first: the same model, with the mark of a favorite.
pub record Shows (favorites : Option (Result (List Bytes))) (e s : CatalogEntry) : Type 0 where
  pub same_id : s.id ≡ e.id
  pub same_owner : s.owner ≡ e.owner
  pub same_providers : s.providers ≡ e.providers
  pub same_available : s.available ≡ e.available
  pub same_accounts : s.accounts ≡ e.accounts
  pub is_favorite : IsFavorite favorites e s

-- The entries of the second list show those of the first, one by one.
abbrev pub AllShow : Option (Result (List Bytes)) → List CatalogEntry → List CatalogEntry → Type 0
AllShow favorites [] [] = Unit
AllShow favorites (e ∷ es) (s ∷ ss) = Shows favorites e s × AllShow favorites es ss
AllShow favorites _ _ = ⊥

-- The same but for the order.
abbrev pub AllShowInOrder :
    Option (Result (List Bytes)) → List CatalogEntry → List CatalogEntry → Type 0
AllShowInOrder favorites es ss =
    (shown : List CatalogEntry) × AllShow favorites es shown × Permᴰ shown ss

member_iff : (k : Bytes) (ids : List Bytes) → (member k ids ≡ true) ↔ Memᴰ k ids
unfolding member
member_iff k [] = (λ h. cc, λ m. elim m [ ])
member_iff k (j ∷ ids) = let known = member_iff k ids in (there known, back known)
  where
    there :
        (member k ids ≡ true) ↔ Memᴰ k ids
        → (bytes_eq j k || member k ids) ≡ true
        → Memᴰ k (j ∷ ids)
    there known h = elim (Bool-cases (bytes_eq j k)) [
      | inl e ↦ Memᴰ.head (sym (bytes_eq_sound j k e))
      | inr e ↦ Memᴰ.tail (known.0 (rw e at h))
    ]

    back :
        (member k ids ≡ true) ↔ Memᴰ k ids
        → Memᴰ k (j ∷ ids)
        → (bytes_eq j k || member k ids) ≡ true
    back known (Memᴰ.head e) = rw e (rw (bytes_eq_refl j) refl)
    back known (Memᴰ.tail m) = elim (Bool-cases (bytes_eq j k)) [
      | inl e ↦ rw e refl
      | inr e ↦ rw e (known.1 m)
    ]

unmarked-AllShow : (es : List CatalogEntry) → AllShow none es es
unmarked-AllShow [] = tt
unmarked-AllShow (e ∷ es) = (
  record {
    same_id = refl;
    same_owner = refl;
    same_providers = refl;
    same_available = refl;
    same_accounts = refl;
    is_favorite = refl;
  },
  unmarked-AllShow es,
)

marked-AllShow :
    (ids : List Bytes) (es : List CatalogEntry)
    → AllShow (some (ok ids)) es (map (mark_favorite ids) es)
unfolding mark_favorite
marked-AllShow ids [] = tt
marked-AllShow ids (e ∷ es) = (
  record {
    same_id = refl;
    same_owner = refl;
    same_providers = refl;
    same_available = refl;
    same_accounts = refl;
    is_favorite = member_iff e.id ids;
  },
  marked-AllShow ids es,
)

pub overlay_favorites-AllShow :
    (f : Option (Result (List Bytes))) (es out : List CatalogEntry)
    → overlay_favorites f es ≡ ok out
    → AllShow f es out
unfolding overlay_favorites
overlay_favorites-AllShow none es out h =
    let same : es ≡ out = cc in rw (← same) (unmarked-AllShow es)
overlay_favorites-AllShow (some (err x)) es out h = cc
overlay_favorites-AllShow (some (ok ids)) es out h =
    let same : map (mark_favorite ids) es ≡ out = cc in rw (← same) (marked-AllShow ids es)

mark_cached-IsFavorite :
    (f : Option (Result (List Bytes))) (time : ℕ) (stale : Bool) (e s : CatalogEntry)
    → IsFavorite f e s
    → IsFavorite f e (mark_cached time stale s)
mark_cached-IsFavorite none time stale e s h = h
mark_cached-IsFavorite (some (err x)) time stale e s h = h
mark_cached-IsFavorite (some (ok ids)) time stale e s h = h

mark_cached-AllShow :
    (f : Option (Result (List Bytes))) (time : ℕ) (stale : Bool) (es ss : List CatalogEntry)
    → AllShow f es ss
    → AllShow f es (map (mark_cached time stale) ss)
mark_cached-AllShow f time stale [] [] h = tt
mark_cached-AllShow f time stale [] (s ∷ ss) h = absurd h
mark_cached-AllShow f time stale (e ∷ es) [] h = absurd h
mark_cached-AllShow f time stale (e ∷ es) (s ∷ ss) (h, hs) = (
  record {
    same_id = h.same_id;
    same_owner = h.same_owner;
    same_providers = h.same_providers;
    same_available = h.same_available;
    same_accounts = h.same_accounts;
    is_favorite = mark_cached-IsFavorite f time stale e s h.is_favorite;
  },
  mark_cached-AllShow f time stale es ss hs,
)

-- The cached entries that carry the favorites, in another order.
pub cached_entries-AllShowInOrder :
    (f : Option (Result (List Bytes))) (time : ℕ) (stale : Bool) (es ss : List CatalogEntry)
    → AllShow f es ss
    → AllShowInOrder f es (cached_entries ss time stale)
unfolding cached_entries sort_entries
cached_entries-AllShowInOrder f time stale es ss h = (
  map (mark_cached time stale) ss,
  mark_cached-AllShow f time stale es ss h,
  sort_by-Perm entry_id (map (mark_cached time stale) ss),
)
