-- ===== src/Config/Load/Checks.antt =====
-- What a loaded configuration is known to satisfy.
use Prim.Native.Nat.{◌%◌}
use mirror_mirage.Prelude.{
  ℕ, ◌≡◌, refl, sym, ap, subst, Bool, true, false, not, Option, none, some, List, [], ◌∷◌, inl, inr,
  In, ◌==◌, ==_iff, any, Bool-cases,
}
use mirror_mirage.Text.{Text, text_eq, text_eq_iff, any-In}
use mirror_mirage.FilePath.{FilePath, text_keys}
use mirror_mirage.Dict
use mirror_mirage.Dict.{Dict, get-put}
use mirror_mirage.Config.{Binding, WatchConfig, Config}
use mirror_mirage.Config.Load.{
  Try, World, ConfigError, Loaded, loaded, refused, ◌>>=◌, or_raise, raise_if, names_of,
  unknown_cdn, missing_path, cannot_stat, insecure_mode, cannot_read, cannot_parse,
  secrets_not_mapping, invalid, check_mode, read_yaml, validate, check_bindings, check_watches,
  creds_of, fill_credentials, finish, load, or_empty,
}

module _ {A B : Type 0} where
  bind_inv :
      (x : Loaded A) (f : A → Loaded B) (b : B)
      → (x >>= f) ≡ loaded b
      → (a : A) × (x ≡ loaded a) × (f a ≡ loaded b)
  bind_inv (loaded a) f b h = (a, refl, h)
  bind_inv (refused e) f b h = absurd (cc h)

loaded_inj : {A : Type 0} {a b : A} → loaded a ≡ loaded b → a ≡ b
loaded_inj h = cc

raise_if-passed : (b : Bool) (e : ConfigError) (u : Unit) → raise_if (not b) e ≡ loaded u → b ≡ true
raise_if-passed true e u h = refl
raise_if-passed false e u h = absurd (cc h)

or_raise-passed :
    {A : Type 0} (error : Text → ConfigError) (t : Try A) (a : A)
    → or_raise error t ≡ loaded a
    → t ≡ inr a
or_raise-passed error (inl e) a h = absurd (cc h)
or_raise-passed error (inr b) a h = ap inr (loaded_inj h)

check_bindings-In :
    (path : FilePath) (names : List Text) (bs : List Binding) (u : Unit)
    → check_bindings path names bs ≡ loaded u
    → (b : Binding) → In b bs
    → In b.cdn names
unfolding check_bindings
check_bindings-In path names [] u h b m = absurd m
check_bindings-In path names (c ∷ bs) u h b m =
    let (v, e, rest) =
      bind_inv (raise_if (not (any (text_eq c.cdn) names)) (unknown_cdn path c.cdn))
        (λ _. check_bindings path names bs) u h in
    elim m [
      | inl same ↦ rw same (
          any-In c.cdn names
            (raise_if-passed (any (text_eq c.cdn) names) (unknown_cdn path c.cdn) v e))
      | inr n ↦ check_bindings-In path names bs u rest b n
    ]

module _ (w : World) where
  -- A watch passes if its path exists and its bindings name CDNs of the list.
  pub record Passed (names : List Text) (watch : WatchConfig) : Type 0 where
    pub present : w.exists watch.path ≡ true
    pub bound : (b : Binding) → In b watch.bindings → In b.cdn names

  check_watches-Passed :
      (names : List Text) (watches : List WatchConfig) (u : Unit)
      → check_watches w names watches ≡ loaded u
      → (watch : WatchConfig) → In watch watches
      → Passed names watch
  unfolding check_watches
  check_watches-Passed names [] u h watch m = absurd m
  check_watches-Passed names (v ∷ vs) u h watch m =
      let (x, e, h1) =
        bind_inv (raise_if (not (w.exists v.path)) (missing_path v.path))
          (λ _. check_bindings v.path names v.bindings >>= λ _. check_watches w names vs) u h in
      let (y, f, rest) =
        bind_inv (check_bindings v.path names v.bindings) (λ _. check_watches w names vs) u h1 in
      elim m [
        | inl same ↦ subst (Passed names) (sym same) (record {
          present = raise_if-passed (w.exists v.path) (missing_path v.path) x e;
          bound = check_bindings-In v.path names v.bindings y f;
        })
        | inr n ↦ check_watches-Passed names vs u rest watch n
      ]

  -- The secrets have a non-empty mapping for the CDN, and its items are the credentials.
  pub record Credentialed (secrets : w.Value) (credentials : Dict Text (Dict Text Text))
      (name : Text) : Type 0 where
    pub creds : w.Value
    pub given : w.lookup name secrets ≡ some creds
    pub not_empty : w.truthy creds ≡ true
    pub mapping : w.is_dict creds ≡ true
    pub kept : Dict.get name credentials ≡ some (w.str_items creds)

  creds_of-given :
      (path : FilePath) (name : Text) (o : Option w.Value) (items : Dict Text Text)
      → creds_of w path name o ≡ loaded items
      → (creds : w.Value) × (o ≡ some creds)
        × (w.truthy creds ≡ true)
        × (w.is_dict creds ≡ true)
        × (items ≡ w.str_items creds)
  creds_of-given path name none items h = absurd (cc h)
  creds_of-given path name (some creds) items h = elim (Bool-cases (w.truthy creds)) [
    | inr e ↦ absurd (cc (rw e at h))
    | inl e ↦ elim (Bool-cases (w.is_dict creds)) [
      | inr f ↦ absurd (cc (rw (e, f) at h))
      | inl f ↦ (creds, refl, e, f, sym (loaded_inj (rw (e, f) at h)))
    ]
  ]

  -- A name that the loop does not reach again keeps its entry, and one that it reaches again gets the
  -- same one.
  fill_credentials-kept :
      (path : FilePath) (secrets : w.Value) (names : List Text)
      (before after : Dict Text (Dict Text Text)) (name : Text)
      → fill_credentials w path secrets names before ≡ loaded after
      → Credentialed secrets before name
      → Credentialed secrets after name
  unfolding fill_credentials
  fill_credentials-kept path secrets [] before after name h c =
      subst (λ d. Credentialed secrets d name) (loaded_inj h) c
  fill_credentials-kept path secrets (n ∷ ns) before after name h c =
      let (items, e, rest) =
        bind_inv (creds_of w path n (w.lookup n secrets))
          (λ items. fill_credentials w path secrets ns (Dict.put n items before)) after h in
      let (creds, g, t, d, i) = creds_of-given path n (w.lookup n secrets) items e in
      fill_credentials-kept path secrets ns (Dict.put n items before) after name rest
        (elim (Bool-cases (text_eq n name)) [
          | inl same ↦ record {
            creds = creds;
            given =
                subst (λ (x : Text). w.lookup x secrets ≡ some creds) ((text_eq_iff n name).0 same)
                  g;
            not_empty = t;
            mapping = d;
            kept = rw (get-put n name items before, same, i);
          }
          | inr other ↦ record {
            creds = c.creds;
            given = c.given;
            not_empty = c.not_empty;
            mapping = c.mapping;
            kept = rw (get-put n name items before, other) c.kept;
          }
        ])

  fill_credentials-Credentialed :
      (path : FilePath) (secrets : w.Value) (names : List Text)
      (before after : Dict Text (Dict Text Text)) (name : Text)
      → fill_credentials w path secrets names before ≡ loaded after
      → In name names
      → Credentialed secrets after name
  unfolding fill_credentials
  fill_credentials-Credentialed path secrets [] before after name h m = absurd m
  fill_credentials-Credentialed path secrets (n ∷ ns) before after name h m =
      let (items, e, rest) =
        bind_inv (creds_of w path n (w.lookup n secrets))
          (λ items. fill_credentials w path secrets ns (Dict.put n items before)) after h in
      let (creds, g, t, d, i) = creds_of-given path n (w.lookup n secrets) items e in
      elim m [
        | inl same ↦ subst (Credentialed secrets after) (sym same) (
            fill_credentials-kept path secrets ns (Dict.put n items before) after n rest (record {
              creds = creds;
              given = g;
              not_empty = t;
              mapping = d;
              kept = rw (get-put n n items before, (text_eq_iff n n).1 refl, i);
            }))
        | inr k ↦
            fill_credentials-Credentialed path secrets ns (Dict.put n items before) after name rest
              k
      ]

  -- A file whose text parses to a value.
  pub record Parsed (path : FilePath) (data_ : w.Value) : Type 0 where
    pub text : Text
    pub read : w.read_text path ≡ inr text
    pub parsed : w.safe_load text ≡ inr data_

  read_yaml-Parsed :
      (path : FilePath) (data_ : w.Value) → read_yaml w path ≡ loaded data_ → Parsed path data_
  unfolding read_yaml
  read_yaml-Parsed path data_ h =
      let (text, e, k) =
        bind_inv (or_raise (cannot_read path) (w.read_text path))
          (λ t. or_raise (cannot_parse path) (w.safe_load t)) data_ h in
      record {
        text = text;
        read = or_raise-passed (cannot_read path) (w.read_text path) text e;
        parsed = or_raise-passed (cannot_parse path) (w.safe_load text) data_ k;
      }

  -- A file that neither its group nor others may use.
  pub record Private (path : FilePath) : Type 0 where
    pub mode : ℕ
    pub has_mode : w.st_mode path ≡ inr mode
    pub no_bits : mode % 4096 % 64 ≡ 0

  check_mode-Private : (path : FilePath) (u : Unit) → check_mode w path ≡ loaded u → Private path
  unfolding check_mode
  check_mode-Private path u h =
      let (mode, e, k) =
        bind_inv (or_raise (cannot_stat path) (w.st_mode path))
          (λ m. raise_if (not (m % 4096 % 64 == 0)) (insecure_mode path (m % 4096))) u h in
      record {
        mode = mode;
        has_mode = or_raise-passed (cannot_stat path) (w.st_mode path) mode e;
        no_bits =
            (==_iff (mode % 4096 % 64) 0).0
              (raise_if-passed (mode % 4096 % 64 == 0) (insecure_mode path (mode % 4096)) u k);
      }

  -- What `finish` adds to the validated configuration.
  pub record Finished (path : FilePath) (secrets : w.Value) (validated cfg : Config) : Type 0 where
    pub rest_same : record cfg { credentials = validated.credentials } ≡ validated
    pub watches : (watch : WatchConfig) → In watch cfg.watches → Passed (names_of cfg.cdns) watch
    pub cdns :
        (name : Text) → In name (names_of cfg.cdns) → Credentialed secrets cfg.credentials name

  finish-Finished :
      (path : FilePath) (secrets : w.Value) (validated cfg : Config)
      → finish w path secrets validated ≡ loaded cfg
      → Finished path secrets validated cfg
  unfolding finish
  finish-Finished path secrets validated cfg h =
      let names = names_of validated.cdns in
      let (u, e, h1) =
        bind_inv (check_watches w names validated.watches)
          (λ _. fill_credentials w path secrets names validated.credentials >>= λ c.
            loaded (record validated { credentials = c }))
          cfg h in
      let (c, f, h2) =
        bind_inv (fill_credentials w path secrets names validated.credentials)
          (λ c. loaded (record validated { credentials = c })) cfg h1 in
      subst (Finished path secrets validated) (loaded_inj h2) (record {
        rest_same = refl;
        watches = check_watches-Passed names validated.watches u e;
        cdns = λ name m.
            fill_credentials-Credentialed path secrets names validated.credentials c name f m;
      })

  -- What the checks of `load` come to.
  pub record Checked (config_path secrets_path : FilePath) (cfg : Config) : Type 0 where
    pub config_data : w.Value
    pub secrets_data : w.Value
    pub validated : Config
    pub private_secrets : Private secrets_path
    pub config_parsed : Parsed config_path config_data
    pub secrets_parsed : Parsed secrets_path secrets_data
    pub mapping : w.is_dict (or_empty w secrets_data) ≡ true
    pub valid : w.model_validate (or_empty w config_data) ≡ inr validated
    pub finished : Finished secrets_path (or_empty w secrets_data) validated cfg

  -- A configuration that `load` returns passed every check: the secrets file's mode has no group or
  -- world bit; both files were read and parsed, and the secrets are a mapping; all but the
  -- credentials is what the validation of the configuration file gave; every watch path exists;
  -- every binding names a configured CDN; and every CDN has as credentials the items of its
  -- non-empty mapping in the secrets file.
  pub load-Checked :
      (config_path secrets_path : FilePath) (cfg : Config)
      → load w config_path secrets_path ≡ loaded cfg
      → Checked config_path secrets_path cfg
  unfolding load validate
  load-Checked config_path secrets_path cfg h =
      let (u, e0, h0) =
        bind_inv (check_mode w secrets_path)
          (λ _. read_yaml w config_path >>= λ c.
            read_yaml w secrets_path >>= λ s. validate w secrets_path c s)
          cfg h in
      let (c, e1, h1) =
        bind_inv (read_yaml w config_path)
          (λ c. read_yaml w secrets_path >>= λ s. validate w secrets_path c s) cfg h0 in
      let (s, e2, h2) =
        bind_inv (read_yaml w secrets_path) (λ s. validate w secrets_path c s) cfg h1 in
      let (t, e3, h3) =
        bind_inv (raise_if (not (w.is_dict (or_empty w s))) (secrets_not_mapping secrets_path))
          (λ _. or_raise invalid (w.model_validate (or_empty w c)) >>= λ v.
            finish w secrets_path (or_empty w s) v)
          cfg h2 in
      let (v, e4, h4) =
        bind_inv (or_raise invalid (w.model_validate (or_empty w c)))
          (λ v. finish w secrets_path (or_empty w s) v) cfg h3 in
      record {
        config_data = c;
        secrets_data = s;
        validated = v;
        private_secrets = check_mode-Private secrets_path u e0;
        config_parsed = read_yaml-Parsed config_path c e1;
        secrets_parsed = read_yaml-Parsed secrets_path s e2;
        mapping =
            raise_if-passed (w.is_dict (or_empty w s)) (secrets_not_mapping secrets_path) t e3;
        valid = or_raise-passed invalid (w.model_validate (or_empty w c)) v e4;
        finished = finish-Finished secrets_path (or_empty w s) v cfg h4;
      }
