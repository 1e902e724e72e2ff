-- ===== src/Proxy.antt =====
-- internal/socksproxy: the proxy address that the settings may name.
use gotify_vps_agent.Prelude.{
  true, false, Bool, not, ◌&&◌, ◌||◌, Option, none, some, any, ◌==◌, if◌then◌else◌,
}
use gotify_vps_agent.Prelude.Int.{ℤ, pos, ltb_ℤ}
use gotify_vps_agent.Prelude.Text.{Text, bytes, text_eq, is_empty}
use gotify_vps_agent.Strings.{trim_space}
use gotify_vps_agent.Config.Values.{atoi}
use gotify_vps_agent.Net.{Net, Url, is_loopback_host}

pub data ProxyError : Type 0 where
  unparsed_proxy wrong_proxy_scheme unsupported_proxy bad_proxy_host : ProxyError
  proxy_not_loopback proxy_without_port bad_proxy_port : ProxyError

-- A nil URL without an error, a URL, or an error.
pub data ProxyResult : Type 0 where
  no_proxy : ProxyResult
  proxy : Url → ProxyResult
  proxy_error : ProxyError → ProxyResult

-- strings.ContainsAny(s, "\r\n\t")
abbrev pub has_break : Text → Bool
has_break s = any (λ b. b == 13 || b == 10 || b == 9) s

-- `err != nil || parsedPort < 1 || parsedPort > 65535`
abbrev bad_port : Option ℤ → Bool
bad_port none = true
bad_port (some n) = ltb_ℤ n (pos 1) || ltb_ℤ (pos 65535) n

-- The tests of a parsed address.
unfoldable pub judge_proxy : Net → Url → ProxyResult
judge_proxy net url =
    if not (text_eq url.scheme (bytes "socks5")) && not (text_eq url.scheme (bytes "socks5h"))
    then proxy_error wrong_proxy_scheme
    else if is_empty url.host
        || url.has_user
        || not (is_empty url.path)
        || not (is_empty url.raw_path)
        || not (is_empty url.raw_query)
        || not (is_empty url.fragment)
        || not (is_empty url.opaque)
    then proxy_error unsupported_proxy
    else if has_break url.host
    then proxy_error bad_proxy_host
    else if not (is_loopback_host net url.hostname)
    then proxy_error proxy_not_loopback
    else if is_empty url.port
    then proxy_error proxy_without_port
    else if bad_port (atoi url.port)
    then proxy_error bad_proxy_port
    else proxy url

-- `Parse`
unfoldable pub parse : Net → Text → ProxyResult
parse net raw =
    if is_empty (trim_space raw) then no_proxy else elim (net.parse_url (trim_space raw)) [
      | none ↦ proxy_error unparsed_proxy
      | some url ↦ judge_proxy net url
    ]

-- `Parse` gives no error.
unfoldable pub accepts : Net → Text → Bool
accepts net raw = elim (parse net raw) [
  | proxy_error e ↦ false
  | no_proxy ↦ true
  | proxy url ↦ true
]

-- `DefaultURL`
abbrev pub default_url : Text
default_url = bytes "socks5h://127.0.0.1:9050"
