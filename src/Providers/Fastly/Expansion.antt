-- ===== src/Providers/Fastly/Expansion.antt =====
-- Which URLs the expansion across domains gives.
use mirror_mirage.Prelude.{
  ◌≡◌, refl, sym, ap, subst, ◌∙◌, ◌↔◌, ◌⊎◌, inl, inr, Bool, Option, none, some, List, [], ◌∷◌, In,
  Option-cases, IsUnique, some_inj,
}
use mirror_mirage.Text.{Text, add_to_set}
use mirror_mirage.Text.Sets.{add_to_set_iff, add_to_set-IsUnique}
use mirror_mirage.Url.{Url, urlparse}
use mirror_mirage.Providers.Fastly.{on_host, add_hosts, expand_each, expand_urls_across_domains}

-- One of the hosts, put into the URL.
abbrev OfHosts : Url → List Text → Text → Type 0
OfHosts parsed hosts x = (host : Text) × In host hosts × (x ≡ on_host parsed host)

add_hosts_iff :
    (parsed : Url) (hosts es : List Text) (x : Text)
    → In x (add_hosts parsed hosts es) ↔ (In x es ⊎ OfHosts parsed hosts x)
unfolding add_hosts
add_hosts_iff parsed [] es x =
    (λ m. inl m, λ m. elim m [ inl old ↦ old | inr (host, absent, e) ↦ absurd absent ])
add_hosts_iff parsed (h ∷ hosts) es x =
    let rest = add_hosts_iff parsed hosts (add_to_set (on_host parsed h) es) x in
    let now = add_to_set_iff x (on_host parsed h) es in
    (
      λ m. elim (rest.0 m) [
        | inl n ↦ elim (now.0 n) [ inl old ↦ inl old | inr e ↦ inr (h, inl refl, e) ]
        | inr (host, n, e) ↦ inr (host, inr n, e)
      ],
      λ m. elim m [
        | inl old ↦ rest.1 (inl (now.1 (inl old)))
        | inr (host, inl same, e) ↦ rest.1 (inl (now.1 (inr (e ∙ ap (on_host parsed) same))))
        | inr (host, inr n, e) ↦ rest.1 (inr (host, n, e))
      ],
    )

add_hosts-IsUnique :
    (parsed : Url) (hosts es : List Text) → IsUnique es → IsUnique (add_hosts parsed hosts es)
unfolding add_hosts
add_hosts-IsUnique parsed [] es u = u
add_hosts-IsUnique parsed (h ∷ hosts) es u =
    add_hosts-IsUnique parsed hosts (add_to_set (on_host parsed h) es)
      (add_to_set-IsUnique (on_host parsed h) es u)

module _ (refuses : Text → Bool) (domains : List Text) where
  -- One of the URLs, on its own host or on one of the domains.
  pub record Variant (urls : List Text) (x : Text) : Type 0 where
    pub url : Text
    pub member : In url urls
    pub parsed : Url
    pub parses : urlparse refuses url ≡ some parsed
    pub host : Text
    pub known : In host (parsed.netloc ∷ domains)
    pub same : x ≡ on_host parsed host

  data Expanded (urls es : List Text) : Option (List Text) → Type 0 where
    expanded :
        (out : List Text)
        → (IsUnique es → IsUnique out)
        → ((x : Text) → In x out ↔ (In x es ⊎ Variant urls x))
        → Expanded urls es (some out)
    value_error : (url : Text) → In url urls → urlparse refuses url ≡ none → Expanded urls es none

  further :
      (url : Text) (urls es out : List Text) (parsed : Url)
      → urlparse refuses url ≡ some parsed
      → (x : Text)
      → In x out ↔ (In x (add_hosts parsed (parsed.netloc ∷ domains) es) ⊎ Variant urls x)
      → In x out ↔ (In x es ⊎ Variant (url ∷ urls) x)
  further url urls es out parsed p x f =
      let here_ = add_hosts_iff parsed (parsed.netloc ∷ domains) es x in
      (
        λ m. elim (f.0 m) [
          | inl n ↦ elim (here_.0 n) [
            | inl old ↦ inl old
            | inr (host, k, e) ↦ inr (record {
              url = url;
              member = inl refl;
              parsed = parsed;
              parses = p;
              host = host;
              known = k;
              same = e;
            })
          ]
          | inr v ↦ inr (record {
            url = v.url;
            member = inr v.member;
            parsed = v.parsed;
            parses = v.parses;
            host = v.host;
            known = v.known;
            same = v.same;
          })
        ],
        λ m. elim m [
          | inl old ↦ f.1 (inl (here_.1 (inl old)))
          | inr v ↦ elim v.member [
            | inl first ↦
                let agree : v.parsed ≡ parsed =
                  some_inj (sym v.parses ∙ ap (urlparse refuses) first ∙ p) in
                f.1 (
                  inl (
                    here_.1 (
                      inr (
                        v.host,
                        subst (λ (u : Url). In v.host (u.netloc ∷ domains)) agree v.known,
                        v.same ∙ ap (λ (u : Url). on_host u v.host) agree,
                      ))))
            | inr later ↦ f.1 (
                inr (record {
                  url = v.url;
                  member = later;
                  parsed = v.parsed;
                  parses = v.parses;
                  host = v.host;
                  known = v.known;
                  same = v.same;
                }))
          ]
        ],
      )

  step :
      (url : Text) (urls es : List Text) (parsed : Url) (o : Option (List Text))
      → urlparse refuses url ≡ some parsed
      → Expanded urls (add_hosts parsed (parsed.netloc ∷ domains) es) o
      → Expanded (url ∷ urls) es o
  step url urls es parsed o e (expanded out u f) =
      expanded out (λ v. u (add_hosts-IsUnique parsed (parsed.netloc ∷ domains) es v))
        (λ x. further url urls es out parsed e x (f x))
  step url urls es parsed o e (value_error bad n h) = value_error bad (inr n) h

  expand_each-Expanded :
      (urls es : List Text) → Expanded urls es (expand_each refuses domains urls es)
  unfolding expand_each
  expand_each-Expanded [] es =
      expanded es (λ u. u)
        (λ x. (λ m. inl m, λ m. elim m [ inl old ↦ old | inr v ↦ absurd v.member ]))
  expand_each-Expanded (url ∷ urls) es = elim (Option-cases (urlparse refuses url)) [
    | inl e ↦ rw (e, expand_each) (value_error url (inl refl) e)
    | inr (parsed, e) ↦
        let more = add_hosts parsed (parsed.netloc ∷ domains) es in
        rw (e, expand_each)
          (step url urls es parsed (expand_each refuses domains urls more) e
            (expand_each-Expanded urls more))
  ]

-- What the expansion gives: each variant of a URL once, or the ValueError on one of them.
pub data Expansion (refuses : Text → Bool) (domains urls : List Text)
    : Option (List Text) → Type 0 where
  variants :
      (out : List Text)
      → IsUnique out
      → ((x : Text) → In x out ↔ Variant refuses domains urls x)
      → Expansion refuses domains urls (some out)
  unparsed :
      (url : Text) → In url urls → urlparse refuses url ≡ none → Expansion refuses domains urls none

from_nothing :
    (refuses : Text → Bool) (domains urls : List Text) (o : Option (List Text))
    → Expanded refuses domains urls [] o
    → Expansion refuses domains urls o
from_nothing refuses domains urls o (expanded out u f) =
    variants out (u tt) (λ x.
      (λ m. elim ((f x).0 m) [ inl absent ↦ absurd absent | inr v ↦ v ], λ v. (f x).1 (inr v)))
from_nothing refuses domains urls o (value_error url m e) = unparsed url m e

-- With at least one domain, the expansion of a list of URLs has no URL twice, and a URL is in it just
-- if it is one of the list, put together again with its own host or with one of the domains in its
-- place; it raises only if some URL of the list cannot be parsed.
pub expand-Expansion :
    (refuses : Text → Bool) (urls : List Text) (d : Text) (domains : List Text)
    → Expansion refuses (d ∷ domains) urls (expand_urls_across_domains refuses urls (d ∷ domains))
unfolding expand_urls_across_domains
expand-Expansion refuses urls d domains =
    from_nothing refuses (d ∷ domains) urls (expand_each refuses (d ∷ domains) urls [])
      (expand_each-Expanded refuses (d ∷ domains) urls [])
