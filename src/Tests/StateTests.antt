-- ===== src/Tests/StateTests.antt =====
-- The state store at concrete inputs.
use mathlib.Core.Path.{subst}
use pmux.Base.{
  ℕ, ◌≡◌, ◌≤◌, refl, ap, false, Option, none, some, List, [], ◌∷◌, ◌++◌, Bytes, codes, arith,
  has_prefix, bytes_eq, bytes_lt, ◌==◌, length, drop, Bool-cases, inl, inr, if◌then◌else◌, All,
}
use pmux.Base.Sorting.{sort_by}
use pmux.Redact.{has_suffix}
use pmux.Base.Assoc.{lookup, insert, remove}
use pmux.Base.Int.{ℤ, pos, negsuc}
use pmux.Pmuxerr.{Result, ok, err, Err, foreign, canceled}
use pmux.Files.{newline}
use pmux.Journal.Wire.{bytes, bytes-IsCoder}
use pmux.Journal.Wire.Coders.{
  Coder, IsCoder, nat, nat-IsCoder, pair, pair-IsCoder, list, list-IsCoder, put_nat, get_nat,
  put_all, get_all,
}
use pmux.State.{State, Config, Installation, Outside, validate_state}
use pmux.State.Disk.{World, prune_document_backups}
use pmux.State.Store.{
  Codec, Decoded, bad, unfinished, value, Rest, end_of_text, another, schema_version, read_limit,
}
use pmux.State.Methods.{
  Paths, Codecs, state_document, zero_state, zero_config, save_state, load_state, load_config,
  save_config,
}
use pmux.State.Reading.{IsFaithful, at_rest}
use pmux.State.Contract.{save_state-Saved, save_state-load_state}
use pmux.State.Atomic.{Saved, IsReplaceable}
use pmux.State.Saving.{Apart}
use pmux.State.Store.{validate_bytes, backup_path, corrupt, invalid_json, artifact_path}
use pmux.State.Recovering.{Recovered}
use pmux.State.Loading.{load_state-Recovered}
use pmux.State.Places.{backup_at}
use pmux.State.Pruning.{Pruned, prune-Pruned}
use pmux.State.Unversioned.{unversioned-stuck}
use pmux.State.Validity.{IsValid}
use pmux.State.Loads.{load_state-IsValid}
use pmux.State.Success.{save_state-succeeds, IsNew}

-- States without installations as their version, favorites and recent models; a version is not negative.
abbrev Code : Type 0
Code = ℕ × (List Bytes × List Bytes)

abbrev coder : Coder Code
coder = pair nat (pair (list bytes) (list bytes))

coder-IsCoder : IsCoder coder
coder-IsCoder =
    pair-IsCoder _ _ nat-IsCoder
      (pair-IsCoder _ _ (list-IsCoder bytes bytes-IsCoder) (list-IsCoder bytes bytes-IsCoder))

abbrev written : ℤ → List Installation → List Bytes → List Bytes → Option Bytes
written (pos n) [] favorites recent = some (coder.put (n, (favorites, recent)))
written (pos n) (i ∷ rest) favorites recent = none
written (negsuc n) l favorites recent = none

abbrev rest_of : Bytes → Rest
rest_of [] = end_of_text
rest_of (c ∷ []) = if c == newline then end_of_text else another
rest_of (c ∷ d ∷ s) = another

abbrev read_code : Option (Code × Bytes) → Decoded State
read_code none = bad (foreign "invalid character")
read_code (some ((n, (favorites, recent)), rest)) =
    value
      (record {
        version = pos n;
        installations = [];
        favorites = favorites;
        recent_models = recent;
      })
      (rest_of rest)

abbrev state_codec : Codec State
state_codec = record {
  encode = λ v. written v.version v.installations v.favorites v.recent_models;
  decode = λ start b. read_code (coder.get b);
  check_any = λ b. none;
}

-- A configuration that is an empty object keeps what the value has already.
unfoldable read_config : Config → Bytes → Decoded Config
read_config start b =
    if has_prefix b (codes "{}")
    then value start (rest_of (drop 2 b))
    else bad (foreign "invalid character")

abbrev codecs : Codecs
codecs = record {
  config = record { encode = λ v. none; decode = read_config; check_any = λ b. none };
  state = state_codec;
  secrets = record { encode = λ v. none; decode = λ start b. unfinished; check_any = λ b. none };
}

abbrev outside : Outside
outside = record {
  is_abs = λ path. has_prefix path (codes "/");
  split_host = λ endpoint. some endpoint;
  is_loopback = λ host. false;
  quote = λ s. "";
  decimal = λ n. "1";
  sha256 = λ b. [];
  stamp = codes "7";
}

abbrev paths : Paths
paths = record { config = codes "/p/c"; state = codes "/p/s"; secrets = codes "/p/k" }

round_trip :
    (n : ℤ) (l : List Installation) (f r : List Bytes) (b : Bytes)
    → written n l f r ≡ some b
    → read_code (coder.get (b ++ newline ∷ []))
      ≡ value
          (record { version = n; installations = l; favorites = f; recent_models = r })
          end_of_text
round_trip (pos n) [] f r b h =
    let same : coder.put (n, (f, r)) ≡ b = cc in
    subst
      (λ (x : Bytes).
        read_code (coder.get (x ++ newline ∷ []))
        ≡ value (record { version = pos n; installations = []; favorites = f; recent_models = r })
            end_of_text)
      same (ap read_code (coder-IsCoder.get-put (n, (f, r)) (newline ∷ [])))
round_trip (pos n) (i ∷ l) f r b h = cc
round_trip (negsuc n) l f r b h = cc

state-IsFaithful : IsFaithful (state_document outside codecs paths)
state-IsFaithful = record {
  round_trip = λ v b h n. round_trip v.version v.installations v.favorites v.recent_models b h;
  is_valid = λ v b h. refl;
}

abbrev old_state : State
old_state = record zero_state { version = pos 1; recent_models = codes "a" ∷ [] }

abbrev new_state : State
new_state = record zero_state { favorites = codes "b" ∷ [] }

abbrev old_text : Bytes
old_text = coder.put (1, ([], codes "a" ∷ []))

abbrev old_files : List (Bytes × Bytes)
old_files = (codes "/p/s", old_text) ∷ (codes "/p/c", codes "{}") ∷ []

abbrev failing : World
failing = record {
  files = old_files;
  notices = [];
  leftovers = 0;
  outcomes = none ∷ none ∷ none ∷ some (2, canceled) ∷ [];
}

save_state-Saved_example :
    Saved outside
      (state_document outside codecs paths)
      new_state
      failing.files
      (save_state outside codecs paths new_state failing).1.files
    × ((q : Bytes)
        → bytes_eq paths.state q ≡ false
        → Apart paths.state q
        → lookup q (save_state outside codecs paths new_state failing).1.files
          ≡ lookup q failing.files)
save_state-Saved_example = save_state-Saved outside codecs paths new_state failing

old_state_valid :
    IsReplaceable outside (state_document outside codecs paths) (lookup paths.state old_files)
unfolding validate_bytes validate_state lookup bytes_eq put_nat get_nat put_all get_all
old_state_valid = refl

old_files-IsNew :
    IsNew outside (state_document outside codecs paths) old_files (lookup paths.state old_files)
unfolding lookup backup_path bytes_eq put_nat get_nat put_all get_all
old_files-IsNew = refl

save_state-succeeds_example :
    (after : List (Bytes × Bytes)) × (save_state outside codecs paths new_state
        (at_rest old_files [] 0)
      ≡ (ok tt, at_rest after [] 0))
save_state-succeeds_example =
    save_state-succeeds outside codecs paths new_state (coder.put (1, (codes "b" ∷ [], [])))
      old_files [] 0 (unfold validate_state in refl) refl old_state_valid old_files-IsNew

saved : (save_state outside codecs paths new_state (at_rest old_files [] 0)).0 ≡ ok tt
saved = ap (λ (x : Result (Unit {0}) × World). x.0) save_state-succeeds_example.1

save_state-load_state_example :
    load_state outside codecs paths
      (at_rest (save_state outside codecs paths new_state (at_rest old_files [] 0)).1.files [] 0)
    ≡ (
      ok (record new_state { version = pos schema_version }),
      at_rest (save_state outside codecs paths new_state (at_rest old_files [] 0)).1.files [] 0,
    )
save_state-load_state_example =
    save_state-load_state outside codecs paths new_state (at_rest old_files [] 0) [] 0
      state-IsFaithful (unfold read_limit put_nat get_nat put_all get_all in omega arith) saved

-- A state document of one byte, and a backup.
abbrev corrupt_files : List (Bytes × Bytes)
corrupt_files =
    (codes "/p/s", 9 ∷ [])
    ∷ (codes "/p/backups/pmux/s.1..bak", old_text)
    ∷ (codes "/p/c", codes "{}")
    ∷ []

small_files :
    (files : List (Bytes × Bytes)) (q b : Bytes) (n : ℕ)
    → All (λ entry. length entry.1 ≤ n) files
    → lookup q files ≡ some b
    → length b ≤ n
unfolding lookup
small_files [] q b n h e = cc
small_files ((k, v) ∷ files) q b n h e = elim (Bool-cases (bytes_eq k q)) [
  | inl same ↦ let taken : some v ≡ some b = rw same at e in let x : v ≡ b = cc in rw (← x) h.0
  | inr other ↦ small_files files q b n h.1 (rw other at e)
]

load_state-Recovered_example :
    Recovered outside
      (state_document outside codecs paths)
      (validate_state outside)
      (9 ∷ [])
      (corrupt (foreign "invalid character") invalid_json)
      corrupt_files
      []
      0
      (load_state outside codecs paths (at_rest corrupt_files [] 0))
load_state-Recovered_example =
    load_state-Recovered outside codecs paths (codes "p/s") (9 ∷ [])
      (corrupt (foreign "invalid character") invalid_json) corrupt_files [] 0 state-IsFaithful refl
      (λ name b there.
        small_files corrupt_files (backup_at paths.state name) b read_limit
          (unfold read_limit put_nat get_nat put_all get_all in omega arith) there)
      (unfold lookup bytes_eq in refl) (unfold lookup artifact_path bytes_eq in refl)
      (unfold read_limit put_nat get_nat put_all get_all in refl)

restored_is_old : (load_state outside codecs paths (at_rest corrupt_files [] 0)).0 ≡ ok old_state
unfolding load_state put_nat get_nat put_all get_all has_prefix bytes_eq lookup insert sort_by
    has_suffix validate_state
restored_is_old = refl

prune-Pruned_example :
    Pruned paths.state corrupt_files
      (prune_document_backups paths.state (at_rest corrupt_files [] 0))
prune-Pruned_example = prune-Pruned paths.state (at_rest corrupt_files [] 0)

abbrev backup_file : ℕ → Bytes × Bytes
backup_file n = (codes "/p/backups/pmux/s." ++ n ∷ codes "..bak", [])

abbrev backup_files : List ℕ → List (Bytes × Bytes)
backup_files [] = []
backup_files (n ∷ ns) = backup_file n ∷ backup_files ns

abbrev eleven : List (Bytes × Bytes)
eleven = backup_files (99 ∷ 97 ∷ 98 ∷ 100 ∷ 101 ∷ 102 ∷ 103 ∷ 104 ∷ 105 ∷ 106 ∷ 107 ∷ [])

least_goes :
    (prune_document_backups paths.state (at_rest eleven [] 0)).1.files
    ≡ backup_files (99 ∷ 98 ∷ 100 ∷ 101 ∷ 102 ∷ 103 ∷ 104 ∷ 105 ∷ 106 ∷ 107 ∷ [])
unfolding prune_document_backups sort_by has_suffix has_prefix bytes_eq remove bytes_lt
least_goes = refl

unversioned-stuck_example :
    (load_config outside codecs paths (at_rest old_files [] 0)
      ≡ (ok (record zero_config { version = pos schema_version }), at_rest old_files [] 0))
    × ((e : Err) × (save_config outside codecs paths zero_config (at_rest old_files [] 0)
          ≡ (err e, at_rest old_files [] 0)))
unversioned-stuck_example =
    unversioned-stuck outside codecs paths (record zero_config { version = pos schema_version })
      zero_config zero_config (codes "{}") old_files [] 0 (unfold lookup bytes_eq in refl)
      (unfold read_limit in omega arith) (unfold read_config has_prefix in refl) refl
      (unfold read_config has_prefix in refl) refl

-- A state with a container behind a loopback endpoint.
abbrev box : Installation
box = record {
  id = codes "box";
  kind = codes "container";
  binary_path = [];
  binary_sha256 = [];
  config_path = [];
  proxy_key_ref = record { path = []; masked = []; fingerprint = [] };
  auth_dir = [];
  runtime_dir = [];
  host = [];
  port = pos 0;
  service_backend = [];
  core_version_seen = [];
  observed_at = 0;
  container = some (record {
    runtime = codes "docker";
    id = codes "1";
    name = [];
    image = codes "core";
    endpoint = codes "LocalHost";
    config_mount = [];
  });
}

abbrev boxed : State
boxed = record zero_state { version = pos 1; installations = box ∷ [] }

abbrev boxed_codecs : Codecs
boxed_codecs = record codecs {
  state = record {
    encode = λ v. none;
    decode = λ start b. value boxed end_of_text;
    check_any = λ b. none;
  };
}

box_loads : (load_state outside boxed_codecs paths (at_rest old_files [] 0)).0 ≡ ok boxed
unfolding load_state validate_state lookup bytes_eq
box_loads = refl

load_state-IsValid_example : IsValid outside boxed
load_state-IsValid_example =
    load_state-IsValid outside boxed_codecs paths (at_rest old_files [] 0) boxed box_loads
