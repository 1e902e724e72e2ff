-- ===== src/Net.antt =====
-- What the program takes from Go's packages net, net/url and path, and the loopback test that
-- internal/gotify and internal/socksproxy both have.
use gotify_vps_agent.Prelude.{Bool, ◌||◌, Option}
use gotify_vps_agent.Prelude.Text.{Text, bytes, text_eq}
use gotify_vps_agent.Strings.Lines.{fold_case}

-- A parsed URL; `has_user` tells that User is not nil, `hostname` and `port` are its methods.
pub record Url : Type 0 where
  pub scheme : Text
  pub host : Text
  pub has_user : Bool
  pub path : Text
  pub raw_path : Text
  pub raw_query : Text
  pub fragment : Text
  pub opaque : Text
  pub hostname : Text
  pub port : Text

pub record Net : Type 0 where
  -- url.Parse
  pub parse_url : Text → Option Url
  -- net.ParseIP gives an address, and it is a loopback address
  pub loopback_ip : Text → Bool
  -- path.Clean
  pub clean : Text → Text

-- `isLoopbackHost`
unfoldable pub is_loopback_host : Net → Text → Bool
is_loopback_host net host = text_eq (fold_case host) (bytes "localhost") || net.loopback_ip host
