-- ===== src/Providers/Build/Built.antt =====
-- Which providers `build_providers` gives, and the KeyError that it raises else.
use mirror_mirage.Prelude.{
  ◌≡◌, refl, sym, ap, subst, ◌∙◌, ◌⊎◌, inl, inr, Bool, true, false, List, [], ◌∷◌, ◌++◌, All, In,
  IsUnique, Bool-cases,
}
use mathlib.Core.List.{append_assoc, append-nil}
use mirror_mirage.Text.{Text, text_eq, text_eq_iff}
use mirror_mirage.FilePath.{text_keys}
use mirror_mirage.Dict
use mirror_mirage.Dict.{Dict, keys, get-put_self, get-put_ne}
use mirror_mirage.Outcome.{Outcome, value, raised, key_error, ◌>>=◌}
use mirror_mirage.Config.{CdnConfig, Config}
use mirror_mirage.Providers.Build.{Provider, provider_of, build_each, build_providers, HasKeys}
use mirror_mirage.Providers.Build.OneCdn.{
  Fits, CredsOf, HasProvider, Missing, Built, built, lacking, Round, gave, lacks, provider_of-Round,
}

impossible : {c : Bool} → c ≡ true → ¬ (c ≡ false)
impossible t f = cc

text_ne : (a b : Text) → ¬ (a ≡ b) → text_eq a b ≡ false
text_ne a b n = elim (Bool-cases (text_eq a b)) [
  | inl e ↦ absurd (n ((text_eq_iff a b).0 e))
  | inr e ↦ e
]

-- A new key comes last.
keys-put_new :
    (k : Text) (v : Provider) (d : Dict Text Provider)
    → ¬ In k (keys d)
    → keys (Dict.put k v d) ≡ keys d ++ k ∷ []
unfolding Dict.put
keys-put_new k v [] n = refl
keys-put_new k v ((j, w) ∷ d) n = elim (Bool-cases (text_eq j k)) [
  | inl e ↦ absurd (n (inl (sym ((text_eq_iff j k).0 e))))
  | inr e ↦ rw e (ap (λ l. j ∷ l) (keys-put_new k v d (λ m. n (inr m))))
]

-- No name is a key of both.
abbrev Apart : Dict Text Provider → Dict Text CdnConfig → Type 0
Apart before cdns = (name : Text) → In name (keys before) → ¬ In name (keys cdns)

In-snoc : (x y : Text) (xs : List Text) → In x (xs ++ y ∷ []) → In x xs ⊎ (x ≡ y)
In-snoc x y [] (inl e) = inr e
In-snoc x y [] (inr m) = absurd m
In-snoc x y (z ∷ xs) (inl e) = inl (inl e)
In-snoc x y (z ∷ xs) (inr m) = elim (In-snoc x y xs m) [ inl k ↦ inl (inr k) | inr e ↦ inr e ]

module _ (b : Bool) (credentials : Dict Text (Dict Text Text)) where
  -- What the rest of the loop gives, from the dictionary built before it.
  data Grown (before : Dict Text Provider) (cdns : Dict Text CdnConfig)
      : Outcome (Dict Text Provider) → Type 0 where
    grown :
        (ps : Dict Text Provider)
        → keys ps ≡ keys before ++ keys cdns
        → All (HasProvider b credentials ps) cdns
        → ((name : Text) → ¬ In name (keys cdns) → Dict.get name ps ≡ Dict.get name before)
        → Grown before cdns (value ps)
    short :
        (key : Text) → Missing b credentials cdns key → Grown before cdns (raised (key_error key))

  module _ (name : Text) (cdn : CdnConfig) (cdns : Dict Text CdnConfig) (p : Provider)
      (before : Dict Text Provider) (fits : Fits b (CredsOf b credentials name) name cdn p)
      (given : (b ≡ true) ⊎ HasKeys (CredsOf b credentials name) cdn)
      (apart : Apart before ((name, cdn) ∷ cdns)) (unique : IsUnique (name ∷ keys cdns)) where
    fresh : ¬ In name (keys before)
    fresh m = apart name m (inl refl)

    Apart-put : Apart (Dict.put name p before) cdns
    Apart-put other m =
        elim (In-snoc other name (keys before) (rw (keys-put_new name p before fresh) at m)) [
          | inl k ↦ λ n. apart other k (inr n)
          | inr e ↦ λ n. unique.0 (subst (λ x. In x (keys cdns)) e n)
        ]

    Missing-cons :
        (key : Text)
        → Missing b credentials cdns key
        → Missing b credentials ((name, cdn) ∷ cdns) key
    Missing-cons key m = record {
      real = m.real;
      before = (name, cdn) ∷ m.before;
      after = m.after;
      name = m.name;
      cdn = m.cdn;
      split = ap (λ l. (name, cdn) ∷ l) m.split;
      earlier = (elim given [ inl t ↦ absurd (impossible t m.real) | inr k ↦ k ], m.earlier);
      needs = m.needs;
      missing = m.missing;
    }

    Grown-cons :
        (o : Outcome (Dict Text Provider))
        → Grown (Dict.put name p before) cdns o
        → Grown before ((name, cdn) ∷ cdns) o
    Grown-cons _ (grown ps ks all frame) =
        grown ps
          (ks
            ∙ rw (keys-put_new name p before fresh)
                (append_assoc (keys before) (name ∷ []) (keys cdns)))
          ((p, frame name unique.0 ∙ get-put_self name p before, fits), all)
          (λ other n.
            frame other (λ m. n (inr m))
            ∙ get-put_ne name other p before (text_ne name other (λ e. n (inl (sym e)))))
    Grown-cons _ (short key m) = short key (Missing-cons key m)

  build_each-Grown :
      (cdns : Dict Text CdnConfig) (before : Dict Text Provider)
      → Apart before cdns
      → IsUnique (keys cdns)
      → Grown before cdns (build_each b credentials cdns before)
  unfolding build_each
  build_each-Grown [] before apart unique =
      grown before (sym (append-nil (keys before))) tt (λ name n. refl)
  build_each-Grown ((name, cdn) ∷ cdns) before apart unique =
      rest (provider_of b credentials name cdn) (provider_of-Round b credentials name cdn)
        (λ p ap. build_each-Grown cdns (Dict.put name p before) ap unique.1)
    where
      rest :
          (o : Outcome Provider)
          → Round b credentials name cdn o
          → ((p : Provider)
              → Apart (Dict.put name p before) cdns
              → Grown
                  (Dict.put name p before)
                  cdns
                  (build_each b credentials cdns (Dict.put name p before)))
          → Grown before
              ((name, cdn) ∷ cdns)
              (o >>= λ p. build_each b credentials cdns (Dict.put name p before))
      rest _ (gave p fits given) more =
          Grown-cons name cdn cdns p before fits given apart unique _
            (more p (Apart-put name cdn cdns p before fits given apart unique))
      rest _ (lacks key real needs missing) more = short key (record {
        real = real;
        before = [];
        after = cdns;
        name = name;
        cdn = cdn;
        split = refl;
        earlier = tt;
        needs = needs;
        missing = missing;
      })

-- Under distinct CDN names, `build_providers` either gives a dictionary with exactly the CDNs' names,
-- in their order, and under each name the provider of that CDN: the dry-run one in a dry run, else
-- the one of its type with its configuration and its credentials. Or it is no dry run, and it raises
-- KeyError for the credential (a Fastly CDN's `api_token`, a GCP CDN's `service_account_file`) that
-- the first CDN that lacks one it needs does not have.
pub build_providers-Built :
    (cfg : Config) (dry_run : Bool)
    → IsUnique (keys cfg.cdns)
    → Built dry_run cfg.credentials cfg.cdns (build_providers cfg dry_run)
unfolding build_providers
build_providers-Built cfg dry_run unique =
    closed _ (build_each-Grown dry_run cfg.credentials cfg.cdns [] (λ name m. absurd m) unique)
  where
    closed :
        (o : Outcome (Dict Text Provider))
        → Grown dry_run cfg.credentials [] cfg.cdns o
        → Built dry_run cfg.credentials cfg.cdns o
    closed _ (grown ps ks all frame) = built ps ks all
    closed _ (short key m) = lacking key m
