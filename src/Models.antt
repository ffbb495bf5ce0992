-- ===== src/Models.antt =====
-- internal/adapter/models/catalog.go and internal/domain/model/model.go: the entries of the model
-- catalogue, and the aggregates from which they are rendered.
pub mod Discovery
pub mod Catalog
pub mod Browsing
use pmux.Base.{
  ℕ, Bool, true, false, ◌||◌, ◌&&◌, not, Option, none, some, List, [], ◌∷◌, ◌++◌, Bytes, String,
  codes, map, length, bytes_eq, contains, if◌then◌else◌,
}
use pmux.Base.Assoc.{lookup, insert}
use pmux.Base.Sorting.{sort_by}
use pmux.Pmuxerr.{Result, ok, err, ◌>>=◌, Err, Code, wrap, joined, management_unreachable, upstream}
use pmux.Redact.{member, to_lower}

pub record AuthFile : Type 0 where
  pub name : Bytes
  pub provider : Bytes
  pub disabled : Bool

pub record ModelRef : Type 0 where
  pub id : Bytes
  pub owner : Bytes
  pub channel : Bytes

pub record ModelDef : Type 0 where
  pub id : Bytes
  pub owner : Bytes

-- `CatalogEntry`; times are nanoseconds since the zero time.
pub record CatalogEntry : Type 0 where
  pub id : Bytes
  pub owner : Bytes
  pub providers : List Bytes
  pub available : Bool
  pub accounts : ℕ
  pub favorite : Bool
  pub source : Bytes
  pub observed_at : ℕ
  pub stale : Bool

-- What the management API answers.
pub record Management : Type 0 where
  pub auth_files : Result (List AuthFile)
  pub auth_file_models : Bytes → Result (List ModelRef)
  pub model_definitions : Bytes → Result (List ModelDef)
  pub public_models : Result (List ModelRef)

abbrev pub source_management : Bytes
source_management = codes "management"

abbrev pub source_v1 : Bytes
source_v1 = codes "v1"

abbrev pub source_cache : Bytes
source_cache = codes "cache"

abbrev pub unknown_provider : Bytes
unknown_provider = codes "Unknown"

-- `aggregate`, of which the ID is the key; a Go set is a list without repetitions.
pub record Aggregate : Type 0 where
  pub owners : List Bytes
  pub providers : List Bytes
  pub accounts : List Bytes

-- The three maps of `discoverManagement`.
pub record Found : Type 0 where
  pub models : List (Bytes × Aggregate)
  pub channels : List (Bytes × List Bytes)
  pub accounts : List (Bytes × List Bytes)

abbrev pub nothing_found : Found
nothing_found = record { models = []; channels = []; accounts = [] }

-- `set[value] = struct{}{}`.
unfoldable pub add_member : Bytes → List Bytes → List Bytes
unfolding member
add_member value set = if member value set then set else set ++ value ∷ []

abbrev pub set_of : Option (List Bytes) → List Bytes
set_of none = []
set_of (some set) = set

-- `addSet`.
unfoldable pub add_set : Bytes → Bytes → List (Bytes × List Bytes) → List (Bytes × List Bytes)
unfolding add_member
add_set key value sets = insert key (add_member value (set_of (lookup key sets))) sets

-- `aggregateFor`.
abbrev pub aggregate_for : Option Aggregate → Aggregate
aggregate_for none = record { owners = []; providers = []; accounts = [] }
aggregate_for (some existing) = existing

-- `addOwner`.
unfoldable pub add_owner : Bytes → Aggregate → Aggregate
unfolding add_member
add_owner owner a = if bytes_eq owner [] then a else record a { owners = add_member owner a.owners }

unfoldable pub add_provider : Bytes → Aggregate → Aggregate
unfolding add_member
add_provider provider a = record a { providers = add_member provider a.providers }

unfoldable pub add_account : Bytes → Aggregate → Aggregate
unfolding add_member
add_account account a = record a { accounts = add_member account a.accounts }

-- `aggregateFor(all, id)` and what is then done to it.
unfoldable pub update_aggregate :
    Bytes → (Aggregate → Aggregate) → List (Bytes × Aggregate) → List (Bytes × Aggregate)
update_aggregate id f all = insert id (f (aggregate_for (lookup id all))) all

abbrev pub identity : Bytes → Bytes
identity b = b

-- `sortedSet`.
unfoldable pub sorted_set : List Bytes → List Bytes
unfolding sort_by
sorted_set set = sort_by identity set

abbrev pub first_or : Bytes → List Bytes → Bytes
first_or d [] = d
first_or d (x ∷ xs) = x

abbrev pub some_providers : List Bytes → List Bytes
some_providers [] = unknown_provider ∷ []
some_providers (p ∷ ps) = p ∷ ps

-- One entry of `renderAggregates`.
unfoldable pub render : Bytes → ℕ → Bytes × Aggregate → CatalogEntry
unfolding sorted_set
render source observed_at (id, a) = record {
  id = id;
  owner = first_or [] (sorted_set a.owners);
  providers = some_providers (sorted_set a.providers);
  available = true;
  accounts = length a.accounts;
  favorite = false;
  source = source;
  observed_at = observed_at;
  stale = false;
}

-- `sortEntries`.
abbrev pub entry_id : CatalogEntry → Bytes
entry_id e = e.id

unfoldable pub sort_entries : List CatalogEntry → List CatalogEntry
unfolding sort_by
sort_entries entries = sort_by entry_id entries

-- `renderAggregates`.
unfoldable pub render_aggregates : List (Bytes × Aggregate) → Bytes → ℕ → List CatalogEntry
unfolding render sort_entries
render_aggregates all source observed_at = sort_entries (map (render source observed_at) all)
