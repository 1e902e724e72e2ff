-- ===== src/Gotify/Safe.antt =====
-- internal/gotify: to which servers a client may talk.
use gotify_vps_agent.Prelude.{
  ◌≡◌, refl, sym, subst, not, ◌&&◌, ◌||◌, ◌<◌, leb, ◌==◌, ◌∷◌, ◌⊎◌, inl, inr, Bool, true, false, [],
  Option, none, some, arith, length, ◌≤◌, any, Option-cases,
}
use gotify_vps_agent.Prelude.Int.{ℤ}
use gotify_vps_agent.Prelude.Text.{Text, bytes, text_eq, is_empty}
use gotify_vps_agent.Strings.{trim_space}
use gotify_vps_agent.Net.{Net, Url, is_loopback_host}
use gotify_vps_agent.Proxy.{ProxyResult, no_proxy, proxy, proxy_error, parse, judge_proxy}
use gotify_vps_agent.Gotify.{
  Onion, not_onion, onion, onion_error, is_onion_host, validate_token, UrlResult, base_url,
  url_error, judge_url, judge_base, validate_url, Client, client, no_client, new_with, new_client,
  has_proxy, bad_proxy, UrlError,
}

-- The server of a client. `proxied` tells whether the client has a proxy.
abbrev pub IsSafeServer : Net → Bool → Bool → Url → Type 0
IsSafeServer net allow_insecure_http proxied base =
    ((text_eq base.scheme (bytes "https") ≡ true)
      ⊎ ((text_eq base.scheme (bytes "http") ≡ true)
          × ((allow_insecure_http ≡ true)
              ⊎ ((is_loopback_host net base.hostname ≡ true)
                  ⊎ ((is_onion_host base.hostname ≡ onion) × (proxied ≡ true))))))
    × (is_onion_host base.hostname ≡ onion → proxied ≡ true)
    × (is_empty base.host ≡ false)
    × (base.has_user ≡ false)

-- What the accepted URL keeps of the parsed one, and the two tests on the scheme and the host.
judge_url-passes :
    (net : Net) (allow proxied is_onion : Bool) (base url : Url)
    → judge_url net allow proxied is_onion base ≡ base_url url
    → (url.scheme ≡ base.scheme)
      × (url.hostname ≡ base.hostname)
      × (url.host ≡ base.host)
      × (url.has_user ≡ base.has_user)
      × ((is_onion && not proxied) ≡ false)
      × ((text_eq base.scheme (bytes "http")
            && not allow
            && not (is_loopback_host net base.hostname)
            && not (is_onion && proxied))
          ≡ false)
unfolding judge_url
judge_url-passes net allow proxied is_onion base url h = ground arith

Onion-cases : (o : Onion) → (o ≡ not_onion) ⊎ ((o ≡ onion) ⊎ (o ≡ onion_error))
Onion-cases not_onion = inl refl
Onion-cases onion = inr (inl refl)
Onion-cases onion_error = inr (inr refl)

judge_base-IsSafeServer :
    (net : Net) (allow proxied : Bool) (base url : Url)
    → judge_base net allow proxied base ≡ base_url url
    → IsSafeServer net allow proxied url
unfolding judge_base
judge_base-IsSafeServer net allow proxied base url h =
    elim (Onion-cases (is_onion_host base.hostname)) [
      | inl o ↦
          let r : judge_url net allow proxied false base ≡ base_url url = ground (arith, o, h) in
          let (s, n, t, u, a, b) = judge_url-passes net allow proxied false base url r in
          rw (s, n, t, u) (ground (arith, o, h, a, b))
      | inr (inl o) ↦
          let r : judge_url net allow proxied true base ≡ base_url url = ground (arith, o, h) in
          let (s, n, t, u, a, b) = judge_url-passes net allow proxied true base url r in
          rw (s, n, t, u) (ground (arith, o, h, a, b))
      | inr (inr o) ↦ absurd (ground (arith, o, h))
    ]

UrlResult-cases :
    (r : UrlResult) → ((url : Url) × (r ≡ base_url url)) ⊎ ((e : UrlError) × (r ≡ url_error e))
UrlResult-cases (base_url url) = inl (url, refl)
UrlResult-cases (url_error e) = inr (e, refl)

validate_url-IsSafeServer :
    (net : Net) (raw : Text) (allow proxied : Bool) (url : Url)
    → validate_url net raw allow proxied ≡ base_url url
    → IsSafeServer net allow proxied url
unfolding validate_url
validate_url-IsSafeServer net raw allow proxied url h =
    elim (Option-cases (net.parse_url (trim_space raw))) [
      | inl e ↦ absurd (ground (arith, e, h))
      | inr (base, e) ↦ judge_base-IsSafeServer net allow proxied base url (ground (arith, e, h))
    ]

new_with-IsSafeServer :
    (net : Net) (raw token : Text) (timeout : ℤ) (allow : Bool) (p : Option Url) (c : Client)
    → new_with net raw token timeout allow p ≡ client c
    → IsSafeServer net allow (has_proxy p) c.base
      × (validate_token c.token ≡ none)
      × (c.proxy_url ≡ p)
unfolding new_with
new_with-IsSafeServer net raw token timeout allow p c h =
    elim (UrlResult-cases (validate_url net raw allow (has_proxy p))) [
      | inr (e, u) ↦ absurd (ground (arith, u, h))
      | inl (url, u) ↦
          let same : c.base ≡ url = ground (arith, u, h) in
          (
            subst (IsSafeServer net allow (has_proxy p)) (sym same)
                (validate_url-IsSafeServer net raw allow (has_proxy p) url u),
            ground (arith, u, h),
            ground (arith, u, h),
          )
    ]

-- No proxy, or one on the loopback address.
abbrev pub IsLocal : Net → Option Url → Type 0
IsLocal net none = Unit
IsLocal net (some url) = is_loopback_host net url.hostname ≡ true

parse-IsLocal :
    (net : Net) (raw : Text) (url : Url) → parse net raw ≡ proxy url → IsLocal net (some url)
unfolding parse judge_proxy
parse-IsLocal net raw url h = ground arith

abbrev pub IsCleanToken : Text → Type 0
IsCleanToken token =
    (0 < length token) × (length token ≤ 4096) × (any (λ b. leb b 0x20 || b == 0x7f) token ≡ false)

validate_token-IsCleanToken : (token : Text) → validate_token token ≡ none → IsCleanToken token
unfolding validate_token
validate_token-IsCleanToken [] h = absurd (ground (arith, h))
validate_token-IsCleanToken (b ∷ s) h = (omega arith, ground (arith, h), ground (arith, h))

-- A client that `New` makes, from whatever values, talks HTTPS, or plain HTTP to a loopback address,
-- through its proxy to an onion address, or where plain HTTP is allowed. It has a proxy for an onion
-- address, its proxy stands on a loopback address, its URL names a host and no user, and its token is
-- not empty, at most 4096 bytes long and free of white space and control characters.
pub new_client-IsSafeServer :
    (net : Net) (raw token : Text) (timeout : ℤ) (allow : Bool) (raw_proxy : Text) (c : Client)
    → new_client net raw token timeout allow raw_proxy ≡ client c
    → IsSafeServer net allow (has_proxy c.proxy_url) c.base
      × IsLocal net c.proxy_url
      × IsCleanToken c.token
unfolding new_client
new_client-IsSafeServer net raw token timeout allow raw_proxy c h =
    each (parse net raw_proxy) refl h
  where
    each :
        (r : ProxyResult)
        → parse net raw_proxy ≡ r
        → (elim r [
          | proxy_error e ↦ no_client (bad_proxy e)
          | no_proxy ↦ new_with net raw token timeout allow none
          | proxy url ↦ new_with net raw token timeout allow (some url)
        ])
          ≡ client c
        → IsSafeServer net allow (has_proxy c.proxy_url) c.base
          × IsLocal net c.proxy_url
          × IsCleanToken c.token
    each (proxy_error e) p k = absurd (ground (arith, k))
    each no_proxy p k =
        let (s, t, q) = new_with-IsSafeServer net raw token timeout allow none c k in
        rw (q) (s, tt, validate_token-IsCleanToken c.token t)
    each (proxy url) p k =
        let (s, t, q) = new_with-IsSafeServer net raw token timeout allow (some url) c k in
        rw (q) (s, parse-IsLocal net raw_proxy url p, validate_token-IsCleanToken c.token t)
