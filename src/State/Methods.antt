-- ===== src/State/Methods.antt =====
-- The methods of `Store` on the three documents, and the end of a recovery.
use pmux.Base.{
  Bool, not, ◌||◌, Option, none, some, List, [], ◌∷◌, ◌++◌, Bytes, String, codes, bytes_eq, text_of,
  if◌then◌else◌,
}
use Prim.Native.String.{◌++◌ as concat}
use pmux.Base.Int.{pos}
use pmux.Pmuxerr.{Result, ok, err, new_error, foreign, config_validation_failed, user}
use pmux.State.{
  Config, State, SecretReferences, Outside, is_path, validate_state, validate_secret_references,
}
use pmux.State.Disk.{Notice, M, pure, fail, lift, ◌>>=◌, ◌>>◌}
use pmux.State.Store.{
  Codec, Document, Recovery, schema_version, check_version, write_json, read_json, save_document,
  load_document, notify,
}

-- `Paths`.
pub record Paths : Type 0 where
  pub config : Bytes
  pub state : Bytes
  pub secrets : Bytes

pub record Codecs : Type 0 where
  pub config : Codec Config
  pub state : Codec State
  pub secrets : Codec SecretReferences

abbrev pub zero_config : Config
zero_config = record {
  version = pos 0;
  theme = [];
  update_check = pmux.Base.false;
  default_installation = [];
  default_client = [];
  default_model = [];
  high_latency_mode = none;
  log_line_limit = pos 0;
  visual = [];
  persistent_claude_models = [];
  profiles = [];
}

abbrev pub zero_state : State
zero_state = record { version = pos 0; installations = []; favorites = []; recent_models = [] }

abbrev pub zero_secrets : SecretReferences
zero_secrets = record { version = pos 0; management = [] }

-- One round of the loop of `New`, which visits the paths in any order.
unfoldable pub check_path : Outside → String → Bytes → Result (Unit {0})
check_path o name path =
    if not (is_path o path)
    then err (new_error config_validation_failed user (concat name " store path must be absolute"))
    else ok tt

-- `New`: its error, since a `Store` is its paths, and notices, which are none at first.
unfoldable pub new_store : Outside → Paths → Result (Unit {0})
unfolding check_path
new_store o p =
    pmux.Pmuxerr.◌>>◌ (check_path o "config" p.config)
      (pmux.Pmuxerr.◌>>◌ (check_path o "state" p.state) (check_path o "secrets" p.secrets))

-- `RecoveryNotices`.
unfoldable pub recovery_notices : M (List Notice)
recovery_notices w = (ok w.notices, record w { notices = [] })

-- `RebuiltMessage`.
unfoldable pub rebuilt_message : Bytes → Bytes
rebuilt_message path =
    codes
      "pmux state was corrupt and has been rebuilt from the CLIProxyAPI installation; favorites and recent launches were reset. The corrupt file was saved as "
    ++ (path ++ codes ".")

abbrev reset_message : Bytes → Bytes
reset_message path =
    codes "pmux config was corrupt and reset to defaults. The corrupt file was saved as "
    ++ (path ++ codes ".")

-- Whether a `RecoveryNeeded` is that of a kind of document.
unfoldable pub is_recovery_of : Bytes → Option Recovery → Bool
is_recovery_of kind none = pmux.Base.false
is_recovery_of kind (some r) = not (not (bytes_eq r.kind kind) || bytes_eq r.corrupt_path [])

abbrev pub path_of : Option Recovery → Bytes
path_of none = []
path_of (some r) = r.corrupt_path

module _ (o : Outside) (c : Codecs) (p : Paths) where
  abbrev pub config_document : Document Config
  config_document = record {
    codec = c.config;
    kind = codes "config";
    path = p.config;
    zero_value = zero_config;
    version = λ v. v.version;
    set_version = λ n v. record v { version = n };
    validate = λ v. ok tt;
  }

  abbrev pub state_document : Document State
  state_document = record {
    codec = c.state;
    kind = codes "state";
    path = p.state;
    zero_value = zero_state;
    version = λ v. v.version;
    set_version = λ n v. record v { version = n };
    validate = validate_state o;
  }

  abbrev pub secrets_document : Document SecretReferences
  secrets_document = record {
    codec = c.secrets;
    kind = codes "secret-reference";
    path = p.secrets;
    zero_value = zero_secrets;
    version = λ v. v.version;
    set_version = λ n v. record v { version = n };
    validate = validate_secret_references o;
  }

  -- `recoverConfig` ends with a check of the version, `recoverState` with `validateState`.
  unfoldable pub load_config : M Config
  unfolding load_document
  load_config = load_document o config_document (λ v. check_version o (codes "config") v.version)

  unfoldable pub save_config : Config → M (Unit {0})
  unfolding save_document
  save_config = save_document o config_document

  unfoldable pub load_state : M State
  unfolding load_document
  load_state = load_document o state_document (validate_state o)

  unfoldable pub save_state : State → M (Unit {0})
  unfolding save_document
  save_state = save_document o state_document

  abbrev fresh_secrets : SecretReferences
  fresh_secrets = record zero_secrets { version = pos schema_version }

  abbrev loaded_secrets : Option SecretReferences → M SecretReferences
  loaded_secrets none = pure fresh_secrets
  loaded_secrets (some v) = do
    lift (check_version o (codes "secret-reference") v.version)
    lift (validate_secret_references o v)
    pure v

  -- `LoadSecretReferences`.
  unfoldable pub load_secret_references : M SecretReferences
  unfolding read_json check_version
  load_secret_references = read_json o secrets_document fresh_secrets >>= loaded_secrets

  -- `SaveSecretReferences`.
  unfoldable pub save_secret_references : SecretReferences → M (Unit {0})
  unfolding write_json
  save_secret_references value =
      let dated = record value { version = pos schema_version } in
      lift (validate_secret_references o dated) >> write_json o secrets_document dated

  -- `RebuildState`.
  unfoldable pub rebuild_state : State → Option Recovery → M (Unit {0})
  unfolding is_recovery_of write_json rebuilt_message
  rebuild_state value recovery =
      let rebuilt : State = record value {
        version = pos schema_version;
        favorites = [];
        recent_models = [];
      } in
      if is_recovery_of (codes "state") recovery
      then (do
        lift (validate_state o rebuilt)
        write_json o state_document rebuilt
        notify (record {
          kind = codes "state";
          corrupt_path = path_of recovery;
          backup_path = [];
          message = rebuilt_message (path_of recovery);
        }))
      else fail (foreign "state rebuild requires its typed recovery record")

  -- `ResetConfig`.
  unfoldable pub reset_config : Option Recovery → M (Unit {0})
  unfolding is_recovery_of write_json
  reset_config recovery =
      if is_recovery_of (codes "config") recovery
      then (do
        write_json o config_document (record zero_config { version = pos schema_version })
        notify (record {
          kind = codes "config";
          corrupt_path = path_of recovery;
          backup_path = [];
          message = reset_message (path_of recovery);
        }))
      else fail (foreign "config reset requires its typed recovery record")
