-- ===== src/Providers/Fastly/Reach.antt =====
-- What a successful purge of Fastly has reached.
use mirror_mirage.Prelude.{
  none, ℕ, suc, ◌≡◌, refl, sym, ap, subst, ◌∙◌, ◌⊎◌, inl, inr, Bool, true, false, Option, some,
  List, [], ◌∷◌, In, any, Bool-cases, Option-cases, if◌then◌else◌, some_inj, ◌==◌,
}
use mirror_mirage.Text.{Text}
use mirror_mirage.Worker.{PurgeResult}
use mirror_mirage.Providers.{Reply, status, http_error, classify, combine, retryable_status}
use mirror_mirage.Providers.Verdict.{all_ok, one_terminal, only_retryable, combine-Explains}
use mirror_mirage.Providers.Fastly.{
  ApiReply, names_of, FastlyProvider, Api, Ensured, is_success, map_option, purge_endpoint,
  expand_urls_across_domains, ensure_domains, purge_one, with_first, gather, purge_now, purge_on,
  purge,
}
use mirror_mirage.Providers.Fastly.Domains.{
  Discovery, from_cache, found, service_failed, inactive, list_failed, service_raised, list_raised,
  Failed, unreachable, bad_status, ensure_domains-Discovery,
}
use mirror_mirage.Providers.Fastly.Expansion.{
  Variant, Expansion, variants, unparsed, expand-Expansion,
}

classify-ok :
    (r : Reply) → (classify r).ok ≡ true → (code : ℕ) × (r ≡ status code) × (is_success code ≡ true)
unfolding classify
classify-ok (http_error e) h = absurd (cc h)
classify-ok (status code) h = elim (Bool-cases (is_success code)) [
  | inl s ↦ (code, refl, s)
  | inr s ↦ elim (Bool-cases (any (λ c. code == c) retryable_status)) [
    | inl t ↦ absurd (cc (rw (s, t) at h))
    | inr t ↦ absurd (cc (rw (s, t) at h))
  ]
]

module _ (refuses : Text → Bool) (reply : ℕ → Text → Reply) where
  -- Some call was a POST to the URL's endpoint and got a status of 2xx.
  pub record Sent (url : Text) : Type 0 where
    pub endpoint : Text
    pub parses : purge_endpoint refuses url ≡ some endpoint
    pub call : ℕ
    pub code : ℕ
    pub answer : reply call endpoint ≡ status code
    pub success : is_success code ≡ true

  purge_one-Sent :
      (n : ℕ) (url : Text) (r : PurgeResult)
      → purge_one refuses reply n url ≡ some r
      → r.ok ≡ true
      → Sent url
  unfolding purge_one
  purge_one-Sent n url r h k = elim (Option-cases (purge_endpoint refuses url)) [
    | inl e ↦ absurd (cc (rw (e, map_option) at h))
    | inr (endpoint, e) ↦
        let same : classify (reply n endpoint) ≡ r = some_inj (rw (e, map_option) at h) in
        let (code, a, s) =
          classify-ok (reply n endpoint) (ap (λ (x : PurgeResult). x.ok) same ∙ k) in
        record { endpoint = endpoint; parses = e; call = n; code = code; answer = a; success = s }
  ]

  gather-Sent :
      (n : ℕ) (urls : List Text) (results : List PurgeResult) (x : Text)
      → gather refuses reply n urls ≡ some results
      → ((r : PurgeResult) → In r results → r.ok ≡ true)
      → In x urls
      → Sent x
  unfolding gather
  gather-Sent n [] results x h k m = absurd m
  gather-Sent n (url ∷ urls) results x h k m = elim (Option-cases (purge_one refuses reply n url)) [
    | inl e ↦ absurd (cc (rw (e, with_first) at h))
    | inr (r, e) ↦ elim (Option-cases (gather refuses reply (suc n) urls)) [
      | inl f ↦ absurd (cc (rw (e, f, with_first) at h))
      | inr (rs, f) ↦
          let same : r ∷ rs ≡ results = some_inj (rw (e, f, with_first) at h) in
          let ok_of : (s : PurgeResult) → In s (r ∷ rs) → s.ok ≡ true =
            λ s i. k s (subst (λ (l : List PurgeResult). In s l) same i) in
          elim m [
            | inl first ↦ subst Sent (sym first) (purge_one-Sent n url r e (ok_of r (inl refl)))
            | inr later ↦ gather-Sent (suc n) urls rs x f (λ s i. ok_of s (inr i)) later
          ]
    ]
  ]

  combine-ok :
      (results : List PurgeResult)
      → (combine results).ok ≡ true
      → (r : PurgeResult) → In r results
      → r.ok ≡ true
  combine-ok results h r m = elim (combine-Explains results) [
    | all_ok o k ↦ k r m
    | one_terminal o t x i a b ↦ absurd (cc (h, o))
    | only_retryable o t x i a k ↦ absurd (cc (h, o))
  ]

  purge_now-Sent :
      (p p' : FastlyProvider) (urls : List Text) (r : PurgeResult) (x : Text)
      → purge_now refuses reply p (some urls) ≡ some (p', r)
      → r.ok ≡ true
      → In x urls
      → Sent x
  purge_now-Sent p p' urls r x h k m = elim (Option-cases (gather refuses reply 0 urls)) [
    | inl e ↦ absurd (cc (rw (e, map_option) at h))
    | inr (results, e) ↦
        let same : (p, combine results) ≡ (p', r) = some_inj (rw (e, map_option) at h) in
        gather-Sent 0 urls results x e
          (combine-ok results (ap (λ (pair : FastlyProvider × PurgeResult). pair.1.ok) same ∙ k)) m
  ]

  -- The domains that `_ensure_domains` gives.
  abbrev pub domains_of : Option Ensured → List Text
  domains_of none = []
  domains_of (some (p, domains, err)) = domains

  -- A URL that a purge is to reach: each of its own, without the expansion or without a domain; else
  -- each on its own host and on each of the domains.
  pub data Wanted (p : FastlyProvider) (domains urls : List Text) (x : Text) : Type 0 where
    as_given : p.purge_all_service_domains ≡ false → In x urls → Wanted p domains urls x
    no_domains :
        p.purge_all_service_domains ≡ true → domains ≡ [] → In x urls → Wanted p domains urls x
    on_domain :
        (d : Text) (ds : List Text)
        → p.purge_all_service_domains ≡ true
        → domains ≡ d ∷ ds
        → Variant refuses (d ∷ ds) urls x
        → Wanted p domains urls x

  error-not-ok : {A : Type 0} (g : ApiReply A) (r : PurgeResult) → Failed g r → r.ok ≡ false
  error-not-ok g r (unreachable m f e) = ap (λ (x : PurgeResult). x.ok) e
  error-not-ok g r (bad_status code body f s e) = ap (λ (x : PurgeResult). x.ok) e

  expanded-Sent :
      (p p' : FastlyProvider) (domains urls : List Text) (r : PurgeResult) (x : Text)
      → purge_now refuses reply p (expand_urls_across_domains refuses urls domains) ≡ some (p', r)
      → r.ok ≡ true
      → ((domains ≡ []) × In x urls)
        ⊎ ((d : Text) × (ds : List Text) × (domains ≡ d ∷ ds) × Variant refuses (d ∷ ds) urls x)
      → Sent x
  unfolding expand_urls_across_domains
  expanded-Sent p p' [] urls r x h k (inl (e, m)) = purge_now-Sent p p' urls r x h k m
  expanded-Sent p p' (d ∷ ds) urls r x h k (inl (e, m)) = absurd (cc e)
  expanded-Sent p p' [] urls r x h k (inr (c, cs, e, v)) = absurd (cc e)
  expanded-Sent p p' (d ∷ ds) urls r x h k (inr (c, cs, e, v)) =
      through (expand_urls_across_domains refuses urls (d ∷ ds))
        (expand-Expansion refuses urls d ds) h
    where
      through :
          (o : Option (List Text))
          → Expansion refuses (d ∷ ds) urls o
          → purge_now refuses reply p o ≡ some (p', r)
          → Sent x
      through o (variants out u f) g =
          purge_now-Sent p p' out r x g k
            ((f x).1 (subst (λ (l : List Text). Variant refuses l urls x) (sym e) v))
      through o (unparsed bad n f) g = absurd (cc g)

  -- What is wanted when the expansion is on, by its two cases.
  in_full :
      (p : FastlyProvider) (domains urls : List Text) (x : Text)
      → p.purge_all_service_domains ≡ true
      → Wanted p domains urls x
      → ((domains ≡ []) × In x urls)
        ⊎ ((d : Text) × (ds : List Text) × (domains ≡ d ∷ ds) × Variant refuses (d ∷ ds) urls x)
  in_full p domains urls x t (as_given f m) = absurd (cc (t, f))
  in_full p domains urls x t (no_domains s e m) = inl (e, m)
  in_full p domains urls x t (on_domain d ds s e v) = inr (d, ds, e, v)

  module _ (repr : Text → Text) (api : Api) (p p' : FastlyProvider) (r : PurgeResult)
      (ok : r.ok ≡ true) where
    refused :
        (q : FastlyProvider) (err : PurgeResult)
        → purge_on refuses reply (some (q, [], some err)) [] ≡ some (p', r)
        → ¬ (err.ok ≡ false)
    refused q err h f =
        cc (ok, f, ap (λ (pair : FastlyProvider × PurgeResult). pair.1.ok) (some_inj h))

    discovered-Sent :
        (q : Option Ensured) (urls : List Text) (x : Text)
        → Discovery repr api p q
        → purge_on refuses reply q urls ≡ some (p', r)
        → p.purge_all_service_domains ≡ true
        → Wanted p (domains_of q) urls x
        → Sent x
    discovered-Sent q urls x (from_cache domains c) h t w =
        expanded-Sent p p' domains urls r x h ok (in_full p domains urls x t w)
    discovered-Sent q urls x (found version versions raw c g a l) h t w =
        expanded-Sent (record p { cached = some (names_of raw) }) p' (names_of raw) urls r x h ok
          (in_full p (names_of raw) urls x t w)
    discovered-Sent q urls x (service_failed err c f) h t w =
        absurd (refused p err h (error-not-ok api.service err f))
    discovered-Sent q urls x (inactive versions c g a) h t w = absurd (refused p _ h refl)
    discovered-Sent q urls x (list_failed err version versions c g a f) h t w =
        absurd (refused p err h (error-not-ok (api.domain_list version) err f))
    discovered-Sent q urls x (service_raised c f) h t w = absurd (cc h)
    discovered-Sent q urls x (list_raised version versions c g a f) h t w = absurd (cc h)

    either :
        (b : Bool) (url : Text) (urls : List Text) (x : Text)
        → p.purge_all_service_domains ≡ b
        → (if b
            then purge_on refuses reply (ensure_domains repr api p) (url ∷ urls)
            else purge_now refuses reply p (some (url ∷ urls)))
          ≡ some (p', r)
        → Wanted p (domains_of (ensure_domains repr api p)) (url ∷ urls) x
        → Sent x
    either true url urls x t h w =
        discovered-Sent (ensure_domains repr api p) (url ∷ urls) x
          (ensure_domains-Discovery repr api p) h t w
    either false url urls x t h (as_given f m) = purge_now-Sent p p' (url ∷ urls) r x h ok m
    either false url urls x t h (no_domains s e m) = absurd (cc (t, s))
    either false url urls x t h (on_domain d ds s e v) = absurd (cc (t, s))

  -- If a purge returns a result that is ok, then for each of its URLs, and, with the expansion on and
  -- domains discovered, for each of them on its own host and on every domain, some POST to the URL's
  -- endpoint got a status of 2xx; whatever the replies.
  pub purge-Sent :
      (repr : Text → Text) (api : Api) (p p' : FastlyProvider) (urls : List Text) (r : PurgeResult)
      (x : Text)
      → purge refuses reply repr api p urls ≡ some (p', r)
      → r.ok ≡ true
      → Wanted p (domains_of (ensure_domains repr api p)) urls x
      → Sent x
  unfolding purge
  purge-Sent repr api p p' [] r x h k (as_given f m) = absurd m
  purge-Sent repr api p p' [] r x h k (no_domains s e m) = absurd m
  purge-Sent repr api p p' [] r x h k (on_domain d ds s e v) = absurd v.member
  purge-Sent repr api p p' (url ∷ urls) r x h k w =
      either repr api p p' r k p.purge_all_service_domains url urls x refl h w
