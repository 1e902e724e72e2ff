-- ===== src/App/Faults.antt =====
-- internal/app/app.go: why no client is made of loaded settings.
use gotify_vps_agent.Prelude.{
  ℕ, ◌≤◌, ◌≡◌, ◌∙◌, ap, Bool, true, false, ◌||◌, Option, none, some, arith,
}
use gotify_vps_agent.Prelude.Int.{ℤ, pos, ltb_ℤ}
use gotify_vps_agent.Prelude.Text.{Text}
use gotify_vps_agent.Config.{Config}
use gotify_vps_agent.Config.Accepted.{load-IsValid}
use gotify_vps_agent.Config.Reader.{loaded}
use gotify_vps_agent.Net.{Net, Url}
use gotify_vps_agent.Proxy.{ProxyResult, no_proxy, proxy, proxy_error, parse, accepts}
use gotify_vps_agent.Gotify.{
  ClientError, bad_proxy, bad_url, bad_token, bad_timeout, no_client, new_with, new_client,
}
use gotify_vps_agent.App.{World, go_of, load_config, client_for, or_zero}

-- The server's URL or the token is at fault.
unfoldable pub is_server_fault : ClientError → Bool
is_server_fault (bad_proxy e) = false
is_server_fault (bad_url e) = true
is_server_fault (bad_token e) = true
is_server_fault bad_timeout = false

new_with-fault :
    (net : Net) (raw token : Text) (timeout : ℤ) (allow : Bool) (p : Option Url) (e : ClientError)
    → (ltb_ℤ timeout (pos 1000000000) || ltb_ℤ (pos 60000000000) timeout) ≡ false
    → new_with net raw token timeout allow p ≡ no_client e
    → is_server_fault e ≡ true
unfolding new_with is_server_fault
new_with-fault net raw token timeout allow p e in_time h = ground (arith, in_time, h)

-- The timeout of valid settings is in the bounds of the client.
in_time-false :
    (n : ℕ) (timeout : ℤ)
    → timeout ≡ pos n
    → 1000000000 ≤ n
    → n ≤ 60000000000
    → (ltb_ℤ timeout (pos 1000000000) || ltb_ℤ (pos 60000000000) timeout) ≡ false
in_time-false n timeout e lo hi = rw (e) (ground arith)

new_client-fault :
    (net : Net) (raw token : Text) (timeout : ℤ) (allow : Bool) (raw_proxy : Text) (e : ClientError)
    → (ltb_ℤ timeout (pos 1000000000) || ltb_ℤ (pos 60000000000) timeout) ≡ false
    → accepts net raw_proxy ≡ true
    → new_client net raw token timeout allow raw_proxy ≡ no_client e
    → is_server_fault e ≡ true
unfolding new_client accepts
new_client-fault net raw token timeout allow raw_proxy e in_time a h =
    each (parse net raw_proxy) a h
  where
    each :
        (r : ProxyResult)
        → (elim r [ proxy_error f ↦ false | no_proxy ↦ true | proxy url ↦ true ]) ≡ true
        → (elim r [
          | proxy_error f ↦ no_client (bad_proxy f)
          | no_proxy ↦ new_with net raw token timeout allow none
          | proxy url ↦ new_with net raw token timeout allow (some url)
        ])
          ≡ no_client e
        → is_server_fault e ≡ true
    each (proxy_error f) b k = absurd (ground (arith, b))
    each no_proxy b k = new_with-fault net raw token timeout allow none e in_time k
    each (proxy url) b k = new_with-fault net raw token timeout allow (some url) e in_time k

-- If no client is made of loaded settings and a token, then the URL of the server or the token is at
-- fault: the proxy address and the timeout of loaded settings are always accepted.
pub client_for-fault :
    {F : Type 0} (w : World F) (path : Text) (cfg : Config F) (value : Text) (e : ClientError)
    → load_config w path ≡ loaded cfg
    → client_for w cfg value (or_zero (w.go.parse_duration cfg.gotify.timeout)) ≡ no_client e
    → is_server_fault e ≡ true
unfolding load_config client_for
client_for-fault w path cfg value e l h =
    let valid = load-IsValid (go_of w) w.hostname (w.config_file path) cfg l in
    let (timeout, parses, (n, same, lo, hi)) = valid.timeout_bounds in
    new_client-fault w.net cfg.gotify.url value _ cfg.gotify.allow_insecure_http
      cfg.gotify.proxy_url e (in_time-false n _ (ap or_zero parses ∙ same) lo hi) valid.proxy_valid
      h
