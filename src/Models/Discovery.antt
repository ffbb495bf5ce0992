-- ===== src/Models/Discovery.antt =====
-- The discovery of models of internal/adapter/models/catalog.go.
use pmux.Base.{ℕ, true, false, List, [], ◌∷◌, Bytes, String, map, bytes_eq, if◌then◌else◌}
use pmux.Base.Assoc.{lookup}
use pmux.Base.Sorting.{sort_by}
use pmux.Pmuxerr.{Result, ok, err, ◌>>=◌, Err, wrap, joined, management_unreachable, upstream}
use pmux.Models.{
  source_v1, AuthFile, ModelRef, ModelDef, CatalogEntry, Management, source_management,
  unknown_provider, Aggregate, Found, nothing_found, set_of, add_set, add_owner, add_provider,
  add_account, update_aggregate, sorted_set, render_aggregates,
}

-- One round of the loop over the references of a credential.
unfoldable pub add_ref : Bytes → Bytes → ModelRef → Found → Found
unfolding add_owner add_provider add_account update_aggregate add_set
add_ref provider account ref found = if bytes_eq ref.id [] then found else record found {
  models =
      update_aggregate ref.id
        (λ a. add_account account (add_provider provider (add_owner ref.owner a))) found.models;
  channels =
      if bytes_eq ref.channel []
      then found.channels
      else add_set ref.channel provider found.channels;
}

unfoldable pub add_refs : Bytes → Bytes → List ModelRef → Found → Found
unfolding add_ref
add_refs provider account [] found = found
add_refs provider account (ref ∷ refs) found =
    add_refs provider account refs (add_ref provider account ref found)

abbrev pub provider_of : AuthFile → Bytes
provider_of file = if bytes_eq file.provider [] then unknown_provider else file.provider

-- The account, and the channel of the credential's own provider.
unfoldable pub add_file : AuthFile → Found → Found
unfolding add_set
add_file file found = record found {
  accounts = add_set (provider_of file) file.name found.accounts;
  channels =
      if bytes_eq file.provider []
      then found.channels
      else add_set file.provider (provider_of file) found.channels;
}

-- `pmuxerr.Wrap` of the error of a call.
unfoldable pub or_wrap {ℓ} : {A : Type ℓ} → Result A → String → Result A
or_wrap (ok a) message = ok a
or_wrap (err e) message = err (wrap e management_unreachable upstream message)

unfoldable pub visit_files : Management → List AuthFile → Found → Result Found
unfolding or_wrap add_refs add_file
visit_files m [] found = ok found
visit_files m (file ∷ files) found = elim file.disabled [
  | true ↦ visit_files m files found
  | false ↦
      or_wrap (m.auth_file_models file.name) "Management credential model discovery failed."
      >>= λ refs.
          visit_files m files (add_refs (provider_of file) file.name refs (add_file file found))
]

unfoldable pub add_all_accounts : List Bytes → Aggregate → Aggregate
unfolding add_account
add_all_accounts [] a = a
add_all_accounts (account ∷ accounts) a = add_all_accounts accounts (add_account account a)

-- The loop over the providers of a channel.
unfoldable pub add_channel_providers :
    List (Bytes × List Bytes) → List Bytes → Aggregate → Aggregate
unfolding add_provider add_all_accounts
add_channel_providers accounts [] a = a
add_channel_providers accounts (provider ∷ providers) a =
    add_channel_providers accounts providers
      (add_all_accounts (set_of (lookup provider accounts)) (add_provider provider a))

unfoldable pub add_definitions :
    List (Bytes × List Bytes)
    → List Bytes
    → List ModelDef
    → List (Bytes × Aggregate)
    → List (Bytes × Aggregate)
unfolding add_owner add_channel_providers update_aggregate
add_definitions accounts providers [] models = models
add_definitions accounts providers (d ∷ ds) models = add_definitions accounts providers ds (
    if bytes_eq d.id []
    then models
    else update_aggregate d.id (λ a. add_channel_providers accounts providers (add_owner d.owner a))
        models)

unfoldable pub visit_channels :
    Management → Found → List Bytes → List (Bytes × Aggregate) → Result (List (Bytes × Aggregate))
unfolding or_wrap add_definitions sorted_set
visit_channels m found [] models = ok models
visit_channels m found (channel ∷ channels) models =
    or_wrap (m.model_definitions channel) "Management model-definition discovery failed." >>= λ ds.
    visit_channels m found channels (
      add_definitions found.accounts (sorted_set (set_of (lookup channel found.channels))) ds
        models)

abbrev pub file_name : AuthFile → Bytes
file_name file = file.name

abbrev pub channel_names : List (Bytes × List Bytes) → List Bytes
channel_names channels = map (λ p. p.0) channels

-- `discoverManagement`.
unfoldable pub discover_management : Management → ℕ → Result (List CatalogEntry)
unfolding or_wrap visit_files visit_channels render_aggregates sort_by sorted_set
discover_management m observed_at = do
  files ← or_wrap m.auth_files "Management model discovery failed."
  found ← visit_files m (sort_by file_name files) nothing_found
  models ← visit_channels m found (sorted_set (channel_names found.channels)) found.models
  ok (render_aggregates models source_management observed_at)

unfoldable pub add_public : List ModelRef → List (Bytes × Aggregate) → List (Bytes × Aggregate)
unfolding add_owner add_provider update_aggregate
add_public [] models = models
add_public (ref ∷ refs) models = add_public refs (
    if bytes_eq ref.id []
    then models
    else update_aggregate ref.id (λ a. add_provider unknown_provider (add_owner ref.owner a))
        models)

unfoldable pub public_entries : ℕ → Err → Result (List ModelRef) → Result (List CatalogEntry)
unfolding add_public render_aggregates
public_entries observed_at management_error (err e) = err (
    wrap (joined management_error e) management_unreachable upstream
      "Could not discover models from CLIProxyAPI.")
public_entries observed_at management_error (ok refs) =
    ok (render_aggregates (add_public refs []) source_v1 observed_at)

-- `discoverPublic`.
unfoldable pub discover_public : Management → ℕ → Err → Result (List CatalogEntry)
unfolding public_entries
discover_public m observed_at management_error =
    public_entries observed_at management_error m.public_models
