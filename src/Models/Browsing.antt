-- ===== src/Models/Browsing.antt =====
-- `Filter` of internal/adapter/models/catalog.go.
use pmux.Base.{
  Bool, true, false, ◌||◌, ◌&&◌, not, List, [], ◌∷◌, Bytes, bytes_eq, contains, if◌then◌else◌, ◌≡◌,
}
use pmux.Redact.{member, to_lower}
use pmux.Models.{CatalogEntry, sort_entries}

pub record Query : Type 0 where
  pub provider : Bytes
  pub available_only : Bool
  pub favorites_only : Bool
  pub search : Bytes

any_contains : List Bytes → Bytes → Bool
unfolding to_lower
any_contains [] needle = false
any_contains (p ∷ ps) needle = contains (to_lower p) needle || any_contains ps needle

-- `entryMatches`; `fold` is `ToLower` on ASCII text.
unfoldable pub entry_matches : CatalogEntry → Bytes → Bool
unfolding any_contains to_lower
entry_matches e needle =
    contains (to_lower e.id) needle
    || contains (to_lower e.owner) needle
    || any_contains e.providers needle

-- The guards of `Filter` in their order: whether an entry is left out.
unfoldable pub is_skipped : Query → CatalogEntry → Bool
unfolding entry_matches member to_lower
is_skipped q e =
    if q.available_only && not e.available
    then true
    else if q.favorites_only && not e.favorite
    then true
    else if not (bytes_eq q.provider []) && not (member q.provider e.providers)
    then true
    else not (bytes_eq (to_lower q.search) []) && not (entry_matches e (to_lower q.search))

unfoldable pub select_entries : Query → List CatalogEntry → List CatalogEntry
unfolding is_skipped
select_entries q [] = []
select_entries q (e ∷ es) =
    let rest = select_entries q es in if is_skipped q e then rest else e ∷ rest

-- `Filter`.
unfoldable pub filter : List CatalogEntry → Query → List CatalogEntry
unfolding select_entries sort_entries
filter entries q = sort_entries (select_entries q entries)

-- What a query asks of an entry.
pub record Fits (q : Query) (e : CatalogEntry) : Type 0 where
  pub offered : q.available_only ≡ true → e.available ≡ true
  pub liked : q.favorites_only ≡ true → e.favorite ≡ true
  pub served : bytes_eq q.provider [] ≡ false → member q.provider e.providers ≡ true
  pub found : bytes_eq (to_lower q.search) [] ≡ false → entry_matches e (to_lower q.search) ≡ true
