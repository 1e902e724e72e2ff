-- ===== src/Gotify.antt =====
-- internal/gotify: the client of the Gotify server. The exchange with the server is an argument.
pub mod Safe
use gotify_vps_agent.Prelude.{
  ℕ, suc, ◌+◌, ◌-◌, Bool, true, false, not, ◌&&◌, ◌||◌, List, [], ◌∷◌, ◌++◌, Option, none, some,
  any, ltb, leb, ◌==◌, if◌then◌else◌, length, take,
}
use mathlib.Core.List.{reverse}
use gotify_vps_agent.Prelude.Int.{ℤ, pos, ltb_ℤ, leb_ℤ}
use gotify_vps_agent.Prelude.Text.{Text, bytes, text_eq, is_empty}
use gotify_vps_agent.Strings.{trim_space}
use gotify_vps_agent.Strings.Search.{has_suffix, split, replace, trim_right_byte}
use gotify_vps_agent.Strings.Lines.{to_lower}
use gotify_vps_agent.Textsafe.{sanitize}
use gotify_vps_agent.File.{Decoded, malformed, trailing, whole}
use gotify_vps_agent.Notify.{max_message_bytes}
use gotify_vps_agent.Net.{Net, Url, is_loopback_host}
use gotify_vps_agent.Proxy.{ProxyError, ProxyResult, no_proxy, proxy, proxy_error, has_break, parse}

pub data UrlError : Type 0 where
  unparsed_url wrong_scheme unsupported_url bad_host bad_onion onion_without_proxy : UrlError
  plain_http path_not_canonical : UrlError

pub data Onion : Type 0 where
  not_onion onion onion_error : Onion

-- A character of a base 32 address.
abbrev base32 : ℕ → Bool
base32 b = (leb b'a' b && leb b b'z') || (leb b'2' b && leb b b'7')

-- The label before the last, the labels given backwards.
abbrev last_but_one : List Text → Text
last_but_one (last ∷ label ∷ rest) = label
last_but_one _ = []

-- `isOnionHost`. A host that ends in ".onion" has two labels or more, and the last is "onion".
unfoldable pub is_onion_host : Text → Onion
is_onion_host host =
    let lower = to_lower host in
    let service_id = last_but_one (reverse (split b'.' lower)) in
    if has_suffix lower (bytes ".onion.")
    then onion_error
    else if not (has_suffix lower (bytes ".onion"))
    then not_onion
    else if not (length service_id == 56)
    then onion_error
    else if any (λ b. not (base32 b)) service_id
    then onion_error
    else onion

pub data TokenFault : Type 0 where
  no_token long_token control_token : TokenFault

-- The loop is over runes; those that it refuses are single bytes.
unfoldable pub validate_token : Text → Option TokenFault
validate_token token =
    if is_empty token
    then some no_token
    else if ltb 4096 (length token)
    then some long_token
    else if any (λ b. leb b 0x20 || b == 0x7f) token
    then some control_token
    else none

pub data UrlResult : Type 0 where
  base_url : Url → UrlResult
  url_error : UrlError → UrlResult

-- The tests that follow the one for an onion address.
unfoldable pub judge_url : Net → Bool → Bool → Bool → Url → UrlResult
judge_url net allow_insecure_http proxy_enabled is_onion base =
    let path = trim_right_byte b'/' base.path in
    if is_onion && not proxy_enabled
    then url_error onion_without_proxy
    else if text_eq base.scheme (bytes "http")
        && not allow_insecure_http
        && not (is_loopback_host net base.hostname)
        && not (is_onion && proxy_enabled)
    then url_error plain_http
    else if not (is_empty path)
        && (any (λ b. b == b'\\') path || not (text_eq (net.clean path) path))
    then url_error path_not_canonical
    else base_url (record base { path = path; raw_path = [] })

unfoldable pub judge_base : Net → Bool → Bool → Url → UrlResult
judge_base net allow_insecure_http proxy_enabled base =
    if not (text_eq base.scheme (bytes "https")) && not (text_eq base.scheme (bytes "http"))
    then url_error wrong_scheme
    else if is_empty base.host
        || base.has_user
        || not (is_empty base.raw_query)
        || not (is_empty base.fragment)
        || not (is_empty base.opaque)
    then url_error unsupported_url
    else if has_break base.host
    then url_error bad_host
    else elim (is_onion_host base.hostname) [
      | onion_error ↦ url_error bad_onion
      | onion ↦ judge_url net allow_insecure_http proxy_enabled true base
      | not_onion ↦ judge_url net allow_insecure_http proxy_enabled false base
    ]

-- `validateURL`
unfoldable pub validate_url : Net → Text → Bool → Bool → UrlResult
validate_url net raw allow_insecure_http proxy_enabled = elim (net.parse_url (trim_space raw)) [
  | none ↦ url_error unparsed_url
  | some base ↦ judge_base net allow_insecure_http proxy_enabled base
]

pub record Client : Type 0 where
  pub base : Url
  pub token : Text
  pub timeout : ℤ
  pub proxy_url : Option Url

pub data ClientError : Type 0 where
  bad_proxy : ProxyError → ClientError
  bad_url : UrlError → ClientError
  bad_token : TokenFault → ClientError
  bad_timeout : ClientError

pub data NewClient : Type 0 where
  client : Client → NewClient
  no_client : ClientError → NewClient

-- `proxyURL != nil`
abbrev pub has_proxy : Option Url → Bool
has_proxy none = false
has_proxy (some url) = true

-- From the parsed proxy address on.
unfoldable pub new_with : Net → Text → Text → ℤ → Bool → Option Url → NewClient
new_with net raw token timeout allow_insecure_http proxy_url =
    let clean = trim_space token in
    elim (validate_url net raw allow_insecure_http (has_proxy proxy_url)) [
      | url_error e ↦ no_client (bad_url e)
      | base_url base ↦ elim (validate_token clean) [
        | some e ↦ no_client (bad_token e)
        | none ↦
            if ltb_ℤ timeout (pos 1000000000) || ltb_ℤ (pos 60000000000) timeout
            then no_client bad_timeout
            else client
                (record { base = base; token = clean; timeout = timeout; proxy_url = proxy_url })
      ]
    ]

-- `New`
unfoldable pub new_client : Net → Text → Text → ℤ → Bool → Text → NewClient
new_client net raw token timeout allow_insecure_http raw_proxy = elim (parse net raw_proxy) [
  | proxy_error e ↦ no_client (bad_proxy e)
  | no_proxy ↦ new_with net raw token timeout allow_insecure_http none
  | proxy url ↦ new_with net raw token timeout allow_insecure_http (some url)
]

-- The body of a message, to be shown as Markdown.
pub record Payload : Type 0 where
  pub title : Text
  pub message : Text
  pub priority : ℤ

pub data Request : Type 0 where
  post_message : Url → Text → Payload → Request
  get_health : Url → Request

-- What the exchange gives: an error, or a status and the bytes of the body, if they can be read.
pub data HttpAnswer : Type 0 where
  no_response : Text → HttpAnswer
  response : ℕ → Option Text → HttpAnswer

pub data SendError : Type 0 where
  bad_priority message_too_long not_sent unread_acknowledgement : SendError
  long_acknowledgement bad_acknowledgement trailing_acknowledgement : SendError
  refused_status : ℕ → Text → SendError

abbrev max_response_body : ℕ
max_response_body = 8192

-- `readBody`
unfoldable pub read_body : Option Text → Text
read_body none = bytes "unreadable response"
read_body (some body) =
    let text = sanitize (take (suc max_response_body) body) (pos max_response_body) in
    if is_empty text then bytes "empty response" else text

-- `redact`
unfoldable pub redact : Text → Text → Text
redact token value =
    if is_empty token then value else replace ((token, bytes "[redacted]") ∷ []) value

-- `endpoint`
unfoldable pub endpoint : Client → Text → Url
endpoint c path = record (c.base) { path = trim_right_byte b'/' c.base.path ++ path; raw_path = [] }

abbrev refuses : ℕ → Bool
refuses status_code = ltb status_code 200 || leb 300 status_code

abbrev max_acknowledgement : ℕ
max_acknowledgement = 401408

-- The identifier in the acknowledgement must be positive.
unfoldable pub judge_acknowledgement : Decoded ℤ → Option SendError
judge_acknowledgement malformed = some bad_acknowledgement
judge_acknowledgement (trailing id) =
    if leb_ℤ id (pos 0) then some bad_acknowledgement else some trailing_acknowledgement
judge_acknowledgement (whole id) = if leb_ℤ id (pos 0) then some bad_acknowledgement else none

module _ (exchange : Request → HttpAnswer) (decode : Text → Decoded ℤ) (c : Client) where
  -- What `Send` makes of the answer.
  unfoldable pub judge_answer : HttpAnswer → Option SendError
  judge_answer (no_response e) = some not_sent
  judge_answer (response code body) =
      if refuses code
      then some (refused_status code (redact c.token (read_body body)))
      else elim body [
        | none ↦ some unread_acknowledgement
        | some text ↦
            let bytes_read = take (suc max_acknowledgement) text in
            if ltb max_acknowledgement (length bytes_read)
            then some long_acknowledgement
            else judge_acknowledgement (decode bytes_read)
      ]

  -- `Send`
  unfoldable pub send : Text → Text → ℤ → Option SendError
  send title message priority =
      let body : Payload = record {
        title = sanitize title (pos 256);
        message = sanitize message (pos max_message_bytes);
        priority = priority;
      } in
      if ltb_ℤ priority (pos 0) || ltb_ℤ (pos 10) priority
      then some bad_priority
      else if ltb max_message_bytes (length message)
      then some message_too_long
      else judge_answer (exchange (post_message (endpoint c (bytes "/message")) c.token body))

  -- `Health`
  unfoldable pub health : Option SendError
  health = elim (exchange (get_health (endpoint c (bytes "/health")))) [
    | no_response e ↦ some not_sent
    | response code body ↦ if refuses code then some (refused_status code []) else none
  ]
