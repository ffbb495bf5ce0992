-- ===== src/Tests/ModelsTests.antt =====
-- The model catalogue at concrete inputs.
use pmux.Base.{
  ℕ, ◌≡◌, refl, Bool, true, false, Option, none, some, List, [], ◌∷◌, Bytes, codes, bytes_eq,
  bytes_lt,
}
use pmux.Base.Assoc.{lookup, insert}
use pmux.Pmuxerr.{ok, err, foreign}
use pmux.Models.{CatalogEntry, Management}
use pmux.Models.Discovery.{discover_management}
use pmux.Models.Browsing.{Query, filter}
use pmux.Models.Catalog.{Catalog, Outside, refresh}
use pmux.Models.Catalog.Answers.{Answers, refresh-Answers}

-- One credential serves two models, of which the second sorts first.
abbrev plane : Management
plane = record {
  auth_files = ok (record { name = 7 ∷ []; provider = 5 ∷ []; disabled = false } ∷ []);
  auth_file_models = λ _. ok (
      record { id = 2 ∷ []; owner = 9 ∷ []; channel = [] }
      ∷ record { id = 1 ∷ []; owner = []; channel = [] }
      ∷ []);
  model_definitions = λ _. ok [];
  public_models = err (foreign "down");
}

abbrev entry : Bytes → Bytes → CatalogEntry
entry id owner = record {
  id = id;
  owner = owner;
  providers = (5 ∷ []) ∷ [];
  available = true;
  accounts = 1;
  favorite = false;
  source = codes "management";
  observed_at = 8;
  stale = false;
}

discovered : discover_management plane 8 ≡ ok (entry (1 ∷ []) [] ∷ entry (2 ∷ []) (9 ∷ []) ∷ [])
unfolding discover_management lookup insert bytes_eq bytes_lt
discovered = refl

abbrev outside : Outside
outside = record {
  management = some plane;
  cache_there = true;
  load_error = none;
  store_error = none;
  favorites = some (ok ((2 ∷ []) ∷ []));
  max_age = 60;
  now = 8;
  rfc3339 = λ _. "";
}

abbrev fresh_catalog : Catalog
fresh_catalog = record {
  cached = none;
  state = record { source = []; fetched_at = 0; stale = false; warning = "" };
}

refresh-Answers_example : Answers outside fresh_catalog (refresh outside fresh_catalog)
refresh-Answers_example = refresh-Answers outside fresh_catalog

abbrev owned : Query
owned = record { provider = 5 ∷ []; available_only = true; favorites_only = false; search = 2 ∷ [] }

abbrev listed : List CatalogEntry
listed = entry (2 ∷ []) (9 ∷ []) ∷ entry (1 ∷ []) [] ∷ []

found : filter listed owned ≡ entry (2 ∷ []) (9 ∷ []) ∷ []
unfolding filter bytes_eq pmux.Base.contains pmux.Base.has_prefix
found = refl
