-- ===== src/Tests/Config.antt =====
-- Reading settings. Fixed texts stand for Go's conversions of numbers, strings and durations.
use gotify_vps_agent.Prelude.{
  ℕ, ◌≡◌, refl, true, List, [], ◌∷◌, ◌++◌, Option, some, ltb, drop, if◌then◌else◌,
}
use gotify_vps_agent.Prelude.Int.{ℤ, pos}
use gotify_vps_agent.Prelude.Text.{Text, bytes, text_eq}
use gotify_vps_agent.Prelude.Dict.{insert}
use gotify_vps_agent.File.{contents}
use gotify_vps_agent.Proxy.{accepts, parse}
use gotify_vps_agent.Tests.Client.{net}
use gotify_vps_agent.Config.{Config, Go, default, default_gotify}
use gotify_vps_agent.Strings.Lines.{raw_lines, digits}
use gotify_vps_agent.Config.Line.{strip_comment, cut_equals}
use gotify_vps_agent.Config.Values.{
  parse_bool, atoi, int_value, bool_value, string_value, float_value,
}
use gotify_vps_agent.Config.Sections.{
  assign, assign_agent, assign_gotify, assign_thresholds, assign_checks, assign_services,
}
use gotify_vps_agent.Config.Validity.{
  validate, is_allowed_service, is_unit, validate_agent, validate_thresholds, validate_services,
  is_hostname, bad_pair, bad_memory_pair, bad_load_pair,
}
use gotify_vps_agent.Config.Reader.{
  Reading, identity_of, loaded, load, unmarshal, read_lines, read_line, read_header,
  read_assignment,
}
use gotify_vps_agent.Config.Accepted.{IsValid, load-IsValid}
use gotify_vps_agent.Config.Keys.{Distinct, assigned_keys, unmarshal-Distinct}
use gotify_vps_agent.Strings.{trim_space, decode_rune, space_size, space_size_back}

abbrev seconds : Text → Option ℤ
seconds text = if text_eq text (bytes "5m") then some (pos 300000000000) else some (pos 10000000000)

abbrev between_quotes : Text → Option Text
between_quotes text = some (drop 1 text)

abbrev pub go : Go ℕ
go = record {
  tenths = λ n. n;
  less = ltb;
  finite = λ n. true;
  parse_float = λ text. some 0;
  format_float = λ n. [];
  unquote = between_quotes;
  quote = λ text. bytes "'" ++ text;
  parse_duration = seconds;
  proxy_accepted = accepts net;
}

abbrev pub settings : Config ℕ
settings = record (default go (bytes "vps")) {
  gotify = record default_gotify { url = bytes "u" };
  services = (bytes "tor", bytes "tor.service") ∷ (bytes "nginx", bytes "nginx.service") ∷ [];
}

abbrev pub settings_file : Text
settings_file =
    bytes "[gotify]"
    ++ 10 ∷ bytes "url='u # server"
    ++ 10 ∷ bytes "[services]"
    ++ 10 ∷ bytes "tor='tor.service"
    ++ 10 ∷ bytes "nginx='nginx.service"

pub reads : load go (bytes "vps") (contents settings_file) ≡ loaded settings
unfolding load unmarshal raw_lines read_lines read_line read_header read_assignment strip_comment
    cut_equals assign assign_agent assign_gotify assign_thresholds assign_checks assign_services
    validate validate_agent validate_thresholds validate_services is_hostname bad_pair
    bad_memory_pair bad_load_pair trim_space decode_rune space_size space_size_back text_eq insert
    string_value int_value bool_value float_value parse_bool atoi digits default accepts parse
    is_allowed_service is_unit
reads = refl

load-IsValid_example : IsValid go settings
load-IsValid_example = load-IsValid go (bytes "vps") (contents settings_file) settings reads

-- What is assigned in `settings_file`, the last key first.
abbrev three_keys : List Text
three_keys =
    identity_of (bytes "services") (bytes "nginx")
    ∷ identity_of (bytes "services") (bytes "tor")
    ∷ identity_of (bytes "gotify") (bytes "url")
    ∷ []

abbrev read_to_end : Reading ℕ
read_to_end = record { cfg = settings; section = bytes "services"; seen = three_keys }

unmarshal-Distinct_example : Distinct (assigned_keys settings_file)
unfolding unmarshal raw_lines read_lines read_line read_header read_assignment strip_comment
    cut_equals assign assign_gotify assign_services trim_space decode_rune space_size
    space_size_back text_eq insert string_value default
unmarshal-Distinct_example =
    unmarshal-Distinct go settings_file (default go (bytes "vps")) read_to_end refl
