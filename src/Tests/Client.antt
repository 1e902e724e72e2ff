-- ===== src/Tests/Client.antt =====
-- A client on the loopback address, with a proxy.
use gotify_vps_agent.Prelude.{◌≡◌, refl, false, [], some, if◌then◌else◌}
use gotify_vps_agent.Prelude.Int.{pos}
use gotify_vps_agent.Prelude.Text.{Text, bytes, text_eq}
use gotify_vps_agent.Strings.{trim_space, decode_rune, space_size, space_size_back}
use gotify_vps_agent.Strings.Search.{
  trim_right_byte, contains, split, has_suffix, has_prefix, replace,
}
use gotify_vps_agent.Strings.Lines.{to_lower, fold_case, digits}
use gotify_vps_agent.Config.Values.{atoi}
use gotify_vps_agent.Net.{Net, Url, is_loopback_host}
use gotify_vps_agent.Proxy.{parse, judge_proxy}
use gotify_vps_agent.Gotify.{
  Client, client, new_client, new_with, validate_url, judge_base, judge_url, is_onion_host,
  validate_token, has_proxy,
}
use gotify_vps_agent.Gotify.Safe.{IsSafeServer, IsLocal, IsCleanToken, new_client-IsSafeServer}

abbrev local_url : Text → Text → Url
local_url scheme port = record {
  scheme = scheme;
  host = bytes "::1:80";
  has_user = false;
  path = [];
  raw_path = [];
  raw_query = [];
  fragment = [];
  opaque = [];
  hostname = bytes "::1";
  port = port;
}

-- Two URLs, and the loopback address of both.
abbrev pub net : Net
net = record {
  parse_url = λ raw.
      if text_eq raw (bytes "p")
      then some (local_url (bytes "socks5") (bytes "9"))
      else some (local_url (bytes "http") (bytes "80"));
  loopback_ip = λ host. text_eq host (bytes "::1");
  clean = λ path. path;
}

abbrev made : Client
made = record {
  base = local_url (bytes "http") (bytes "80");
  token = bytes "t";
  timeout = pos 5000000000;
  proxy_url = some (local_url (bytes "socks5") (bytes "9"));
}

is_made : new_client net (bytes "u") (bytes "t") (pos 5000000000) false (bytes "p") ≡ client made
unfolding new_client new_with validate_url judge_base judge_url is_onion_host validate_token
    is_loopback_host parse judge_proxy trim_space decode_rune space_size space_size_back
    trim_right_byte contains split has_suffix has_prefix to_lower fold_case atoi digits text_eq
    replace
is_made = refl

new_client-IsSafeServer_example :
    IsSafeServer net false (has_proxy made.proxy_url) made.base
    × IsLocal net made.proxy_url
    × IsCleanToken made.token
new_client-IsSafeServer_example =
    new_client-IsSafeServer net (bytes "u") (bytes "t") (pos 5000000000) false (bytes "p") made
      is_made
