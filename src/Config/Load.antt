-- ===== src/Config/Load.antt =====
-- `load` of src/mirror_mirage/config.py: its checks in their order, each with its error. The files,
-- PyYAML and the validation by pydantic are parameters.
pub mod Checks
use Prim.Native.Nat.{◌%◌}
use mirror_mirage.Prelude.{
  ℕ, Bool, true, false, not, ◌||◌, Option, none, some, List, [], ◌∷◌, ◌⊎◌, inl, inr, ◌==◌, any,
  if◌then◌else◌,
}
use mirror_mirage.Text.{Text, text_eq}
use mirror_mirage.FilePath.{FilePath, text_keys}
use mirror_mirage.Dict
use mirror_mirage.Dict.{Dict}
use mirror_mirage.Config.{Binding, WatchConfig, CdnConfig, Config}

-- The text of an exception, or what the call gives.
abbrev pub Try : Type 0 → Type 0
Try A = Text ⊎ A

-- What `load` uses of its surroundings. `Value` is what `yaml.safe_load` gives: `truthy` is its
-- truth value, `is_dict` the isinstance test, `lookup` its `get` on a name, and `str_items` the
-- dictionary of its items, keys and values as strings.
pub record World : Type 1 where
  pub Value : Type 0
  pub empty_dict : Value
  pub truthy : Value → Bool
  pub is_dict : Value → Bool
  pub lookup : Text → Value → Option Value
  pub str_items : Value → Dict Text Text
  pub st_mode : FilePath → Try ℕ
  pub read_text : FilePath → Try Text
  pub safe_load : Text → Try Value
  pub model_validate : Value → Try Config
  pub exists : FilePath → Bool

-- A `ConfigError` for each `raise`, with what its message says.
pub data ConfigError : Type 0 where
  cannot_stat : FilePath → Text → ConfigError
  insecure_mode : FilePath → ℕ → ConfigError
  cannot_read : FilePath → Text → ConfigError
  cannot_parse : FilePath → Text → ConfigError
  secrets_not_mapping : FilePath → ConfigError
  invalid : Text → ConfigError
  missing_path : FilePath → ConfigError
  unknown_cdn : FilePath → Text → ConfigError
  no_credentials : Text → FilePath → ConfigError

pub data Loaded (A : Type 0) : Type 0 where
  loaded : A → Loaded A
  refused : ConfigError → Loaded A

infixl 5 ◌>>=◌
abbrev pub ◌>>=◌ : {A B : Type 0} → Loaded A → (A → Loaded B) → Loaded B
loaded a >>= f = f a
refused e >>= f = refused e

-- `except … as e: raise ConfigError(…) from e`
abbrev pub or_raise : {A : Type 0} → (Text → ConfigError) → Try A → Loaded A
or_raise error (inl e) = refused (error e)
or_raise error (inr a) = loaded a

-- `if test: raise error`
abbrev pub raise_if : Bool → ConfigError → Loaded Unit
raise_if true error = refused error
raise_if false error = loaded tt

abbrev pub names_of : Dict Text CdnConfig → List Text
names_of [] = []
names_of ((name, _) ∷ d) = name ∷ names_of d

unfoldable pub check_bindings : FilePath → List Text → List Binding → Loaded Unit
check_bindings path cdn_names [] = loaded tt
check_bindings path cdn_names (b ∷ bs) = do
  _ ← raise_if (not (any (text_eq b.cdn) cdn_names)) (unknown_cdn path b.cdn)
  check_bindings path cdn_names bs

module _ (w : World) where
  -- `yaml.safe_load(text) or {}`
  abbrev pub or_empty : w.Value → w.Value
  or_empty v = if w.truthy v then v else w.empty_dict

  unfoldable pub check_watches : List Text → List WatchConfig → Loaded Unit
  unfolding check_bindings
  check_watches cdn_names [] = loaded tt
  check_watches cdn_names (watch ∷ watches) = do
    _ ← raise_if (not (w.exists watch.path)) (missing_path watch.path)
    _ ← check_bindings watch.path cdn_names watch.bindings
    check_watches cdn_names watches

  -- `if not creds or not isinstance(creds, dict): raise …`
  abbrev pub creds_of : FilePath → Text → Option w.Value → Loaded (Dict Text Text)
  creds_of secrets_path name none = refused (no_credentials name secrets_path)
  creds_of secrets_path name (some creds) =
      if not (w.truthy creds) || not (w.is_dict creds)
      then refused (no_credentials name secrets_path)
      else loaded (w.str_items creds)

  -- The loop over `cfg.cdns` that fills the credentials.
  unfoldable pub fill_credentials :
      FilePath
      → w.Value
      → List Text
      → Dict Text (Dict Text Text)
      → Loaded (Dict Text (Dict Text Text))
  fill_credentials secrets_path secrets [] credentials = loaded credentials
  fill_credentials secrets_path secrets (name ∷ names) credentials = do
    creds ← creds_of secrets_path name (w.lookup name secrets)
    fill_credentials secrets_path secrets names (Dict.put name creds credentials)

  -- From the validated configuration on.
  unfoldable pub finish : FilePath → w.Value → Config → Loaded Config
  unfolding check_watches fill_credentials
  finish secrets_path secrets cfg = do
    _ ← check_watches (names_of cfg.cdns) cfg.watches
    credentials ← fill_credentials secrets_path secrets (names_of cfg.cdns) cfg.credentials
    loaded (record cfg { credentials = credentials })

  -- From the two parsed files on.
  unfoldable pub validate : FilePath → w.Value → w.Value → Loaded Config
  validate secrets_path config_data secrets_data = do
    _ ← raise_if (not (w.is_dict (or_empty secrets_data))) (secrets_not_mapping secrets_path)
    cfg ← or_raise invalid (w.model_validate (or_empty config_data))
    finish secrets_path (or_empty secrets_data) cfg

  -- A file is read, then parsed.
  unfoldable pub read_yaml : FilePath → Loaded w.Value
  read_yaml path = do
    text ← or_raise (cannot_read path) (w.read_text path)
    or_raise (cannot_parse path) (w.safe_load text)

  -- `st_mode % 4096` is `stat.S_IMODE`, and of that the remainder by 64 is `mode & 0o077`.
  unfoldable pub check_mode : FilePath → Loaded Unit
  check_mode secrets_path = do
    st_mode ← or_raise (cannot_stat secrets_path) (w.st_mode secrets_path)
    raise_if (not (st_mode % 4096 % 64 == 0)) (insecure_mode secrets_path (st_mode % 4096))

  -- `load(config_path, secrets_path)`
  unfoldable pub load : FilePath → FilePath → Loaded Config
  unfolding check_mode read_yaml validate
  load config_path secrets_path = do
    _ ← check_mode secrets_path
    config_data ← read_yaml config_path
    secrets_data ← read_yaml secrets_path
    validate secrets_path config_data secrets_data
