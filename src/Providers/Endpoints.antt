-- ===== src/Providers/Endpoints.antt =====
-- What the providers make of the URLs that the mapper gives: fastly.py and cloudfront.py after
-- mapper.py.
use mirror_mirage.Prelude.{
  ℕ, none, refl, ◌≡◌, ◌≢◌, ap, ◌∙◌, Bool, false, some, [], ◌∷◌, ◌++◌, All, any, ◌==◌,
}
use mathlib.Core.List.{append_assoc, append-nil}
use mirror_mirage.Text.{Text, codes, slash, rstrip_slash, add_to_set}
use mirror_mirage.Config.{Binding}
use mirror_mirage.Mapper.{target}
use mirror_mirage.Url.{urlparse, cut}
use mirror_mirage.Url.Https.{
  IsHost, IsPath, span-All, All-map, https, https_parts, urlparse-https, urlunparse-https,
}
use mirror_mirage.Providers.Fastly.{api_base, purge_endpoint, map_option, on_host}
use mirror_mirage.Providers.CloudFront.{path_set}
use mirror_mirage.Providers.Gcp.{after_last, in_brackets, lowered, hostname, request_body, body_of}

-- A host without a user, a port, brackets and a zone.
abbrev pub IsBareHost : Text → Type 0
IsBareHost = All (λ c.
    ((c == b'@') ≡ false) × ((c == b'[') ≡ false) × ((c == b':') ≡ false) × ((c == b'%') ≡ false))

after_last-bare : (s : Text) → IsBareHost s → after_last b'@' s ≡ s
unfolding after_last
after_last-bare [] h = refl
after_last-bare (c ∷ s) (h, k) = rw (none_in s k, h.0)
  where
    none_in : (t : Text) → IsBareHost t → any (λ e. e == b'@') t ≡ false
    none_in [] m = refl
    none_in (d ∷ t) (m, n) = rw (m.0, none_in t n)

cut-All : (d : ℕ) (s : Text) → All (λ c. (c == d) ≡ false) s → cut d s ≡ none
unfolding cut
cut-All d s h = rw (span-All (λ c. c == d) s h)

lowered-bare : (lower : Text → Text) (s : Text) → IsBareHost s → s ≢ [] → lowered lower s ≡ lower s
lowered-bare lower [] h n = absurd (n refl)
lowered-bare lower (c ∷ s) h n =
    rw (span-All (λ d. d == b'%') (c ∷ s) (All-map _ _ (c ∷ s) (λ d k. k.3) h))
      (append-nil (lower (c ∷ s)))

hostname-bare :
    (lower : Text → Text) (s : Text) → IsBareHost s → s ≢ [] → hostname lower s ≡ lower s
unfolding hostname
hostname-bare lower s h n =
    ap (λ t. lowered lower (in_brackets t (cut b'[' t))) (after_last-bare s h)
    ∙ ap (λ o. lowered lower (in_brackets s o)) (cut-All b'[' s (All-map _ _ s (λ d k. k.1) h))
    ∙ ap (λ (split : Text × Text). lowered lower split.0)
        (span-All (λ d. d == b':') s (All-map _ _ s (λ d k. k.2) h))
    ∙ lowered-bare lower s h n

module _ (refuses : Text → Bool) (b : Binding) (host base rel path : Text) where
  target-https :
      rstrip_slash b.url_prefix ≡ codes "https://" ++ (host ++ base)
      → base ++ slash ∷ rel ≡ slash ∷ path
      → (target rel b).url ≡ https host path
  unfolding target
  target-https e p =
      ap (λ (s : Text). s ++ (codes "/" ++ rel)) e
      ∙ ap (λ (s : Text). codes "https://" ++ s)
          (append_assoc host base (slash ∷ rel) ∙ ap (λ (s : Text). host ++ s) p)

  target_parses :
      rstrip_slash b.url_prefix ≡ codes "https://" ++ (host ++ base)
      → base ++ slash ∷ rel ≡ slash ∷ path
      → IsHost host
      → refuses host ≡ false
      → IsPath path
      → urlparse refuses (target rel b).url ≡ some (https_parts host path)
  target_parses e p h r k =
      ap (urlparse refuses) (target-https e p) ∙ urlparse-https refuses host path h k ∙ rw r

  -- For a binding whose URL prefix, less its slashes at the end, is `https://`, a host and a base path,
  -- and a file whose path, after the base, has no `#`, `?` or `;` and no tab or line end: Fastly is
  -- asked to purge that host and that path, put on another host it is the same path, CloudFront invalidates
  -- that path alone, and GCP that path on that host in lower case. The host has no user, port, brackets
  -- or zone.
  pub target-Endpoints :
      (lower : Text → Text) (other : Text)
      → rstrip_slash b.url_prefix ≡ codes "https://" ++ (host ++ base)
      → base ++ slash ∷ rel ≡ slash ∷ path
      → IsHost host
      → refuses host ≡ false
      → IsPath path
      → other ≢ []
      → IsBareHost host
      → host ≢ []
      → (purge_endpoint refuses (target rel b).url
          ≡ some (api_base ++ (codes "/purge/" ++ (host ++ slash ∷ path))))
        × (on_host (https_parts host path) other ≡ https other path)
        × (path_set refuses ((target rel b).url ∷ []) [] ≡ some ((slash ∷ path) ∷ []))
        × (request_body refuses lower (target rel b).url
            ≡ some (record { path = slash ∷ path; host = lower host }))
  unfolding purge_endpoint path_set add_to_set request_body
  target-Endpoints lower other e p h r k n bare m = (
    rw (target_parses e p h r k, map_option),
    urlunparse-https other path n,
    rw (target_parses e p h r k, path_set),
    rw (target_parses e p h r k, body_of, hostname-bare lower host bare m),
  )
