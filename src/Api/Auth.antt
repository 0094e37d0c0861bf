-- ===== src/Api/Auth.antt =====
-- core/src/api/auth.rs: the guard of every request, and who a request is from; the classifiers of
-- tokens are those of core/src/api/mod.rs and core/src/sessions/manager.rs. A header is its text, or
-- absent; a header that is not text is `unreadable`. An error is its code, with the text only where it is
-- `invalid_request`. The parser of addresses is a parameter.
pub mod Scope
use core_tempo.Common.{
  ℕ, ◌+◌, String, Bool, true, false, not, ◌&&◌, ◌||◌, List, [], ◌∷◌, ◌++◌, map, Option, none, some,
  ◌==◌, string_eq, option_eq, nat_eq, if◌then◌else◌, leb, codes, starts_with, ends_with, strip,
  trim, concat, join, parse_u64, unwrap_or, is_some, is_empty,
}
use core_tempo.Common.Dict.{Dict}
use core_tempo.Common.KeySet.{member}
use core_tempo.Types.Ids.{AgentId, is_valid}
use core_tempo.Types.Net.{IpAddr, is_loopback, same_ip}
use core_tempo.Types.Message.{Origin, agent, http}

pub data Caller : Type 0 where
  operator unknown : Caller
  hook : AgentId → Caller

pub data ApiError : Type 0 where
  invalid_host unauthorized wrong_agent forbidden_scope unsupported_media_type : ApiError
  invalid : String → ApiError

pub data Checked {ℓ} (A : Type ℓ) : Type ℓ where
  ok : A → Checked A
  err : ApiError → Checked A

pub data Header : Type 0 where
  absent unreadable : Header
  text : String → Header

-- `get(..).and_then(to_str).unwrap_or("")`.
abbrev pub header_text : Header → String
header_text (text s) = s
header_text absent = ""
header_text unreadable = ""

pub record Request : Type 0 where
  pub is_post : Bool
  pub path : String
  pub host : Header
  pub authorization : Header
  pub content_type : Header
  pub transfer_encoding : Bool
  pub content_length : Header
  pub claimed : Header

-- Up to the first character `c`.
unfoldable pub before_char : ℕ → List ℕ → List ℕ
before_char c [] = []
before_char c (d ∷ s) = if d == c then [] else d ∷ before_char c s

abbrev pub strip_bracket : List ℕ → Option (List ℕ) → List ℕ
strip_bracket raw none = before_char b':' raw
strip_bracket raw (some rest) = before_char b']' rest

unfoldable pub strip_port : String → List ℕ
unfolding before_char
strip_port raw = strip_bracket (codes raw) (strip (codes "[") (codes raw))

abbrev pub same_text : Option (List ℕ) → Bool
same_text (some []) = true
same_text _ = false

-- How the standard library reads an address is a parameter; `bind` is the server's own.
module _ (read_ip : List ℕ → Option IpAddr) (bind : IpAddr) where
  abbrev pub ip_ok : Option IpAddr → Bool
  ip_ok none = false
  ip_ok (some ip) = is_loopback ip || same_ip ip bind

  pub host_ok : String → Bool
  unfolding strip_port
  host_ok raw =
      let host = strip_port raw in
      if same_text (strip (codes "localhost") host) then true else ip_ok (read_ip host)

abbrev pub bearer_after : Option (List ℕ) → List ℕ
bearer_after none = []
bearer_after (some rest) = rest

-- The token of `Authorization: Bearer …`, or nothing.
unfoldable pub bearer_of : Header → List ℕ
bearer_of h = bearer_after (strip (codes "Bearer ") (codes (header_text h)))

unfoldable pub is_raw_pty_post : String → Bool
is_raw_pty_post path = ends_with (codes "/pty") (codes path)

unfoldable pub is_trigger_post : String → Bool
is_trigger_post path =
    path == "/v1/trigger"
    || (starts_with (codes "/v1/flows/") (codes path) && ends_with (codes "/trigger") (codes path))

abbrev pub state_route : AgentId → String
state_route id = concat ("/v1/agents/" ∷ id ∷ "/state" ∷ [])

unfoldable pub require_hook_scope : AgentId → Request → Checked (Unit {0})
require_hook_scope id r =
    if r.is_post && r.path == state_route id then ok tt else err forbidden_scope

-- `to_ascii_lowercase`.
abbrev lower : ℕ → ℕ
lower c = if leb b'A' c && leb c b'Z' then c + 32 else c

abbrev pub length_is_zero : Option ℕ → Bool
length_is_zero none = false
length_is_zero (some n) = n == 0

abbrev pub no_length : Header → Bool
no_length absent = true
no_length unreadable = false
no_length (text s) = length_is_zero (parse_u64 (trim (codes s)))

unfoldable pub no_body_declared : Request → Bool
unfolding parse_u64
no_body_declared r = if r.transfer_encoding then false else no_length r.content_length

unfoldable pub check_content_type : Request → Checked (Unit {0})
unfolding no_body_declared
check_content_type r =
    let ct = header_text r.content_type in
    if not r.is_post
    then ok tt
    else if starts_with (codes "application/json") (map lower (trim (codes ct)))
    then ok tt
    else if is_empty ct && no_body_declared r
    then ok tt
    else err unsupported_media_type

-- `OperatorToken::classify` of a run; `token_matches` compares all bytes.
abbrev pub token_matches : String → List ℕ → Bool
token_matches token bearer = same_text (strip (codes token) bearer)

unfoldable pub classify_run : String → List ℕ → Caller
classify_run token bearer = if token_matches token bearer then operator else unknown

-- `SessionManager::classify`: the operator's token, then those of the hooks.
unfoldable pub classify_hooks : Caller → Dict AgentId String → List ℕ → Caller
classify_hooks found [] bearer = found
classify_hooks unknown ((id, token) ∷ tokens) bearer =
    classify_hooks (if token_matches token bearer then hook id else unknown) tokens bearer
classify_hooks operator ((id, token) ∷ tokens) bearer = classify_hooks operator tokens bearer
classify_hooks (hook other) ((id, token) ∷ tokens) bearer =
    classify_hooks (hook other) tokens bearer

unfoldable pub classify_session : String → Dict AgentId String → List ℕ → Caller
unfolding classify_run classify_hooks
classify_session token tokens bearer = classify_hooks (classify_run token bearer) tokens bearer

-- `?`: the first refusal ends the guard.
infixl 5 ◌>>=◌
abbrev pub ◌>>=◌ {ℓ κ} : {A : Type ℓ} {B : Type κ} → Checked A → (A → Checked B) → Checked B
err refusal >>= next = err refusal
ok passed >>= next = next passed

-- The server's classifier of tokens.
module _ (read_ip : List ℕ → Option IpAddr) (bind : IpAddr) (classify : List ℕ → Caller) where
  abbrev pub require_host : Request → Checked (Unit {0})
  require_host r = if host_ok read_ip bind (header_text r.host) then ok tt else err invalid_host

  abbrev pub authorise : Request → Caller → Checked (Unit {0})
  authorise r operator = ok tt
  authorise r (hook id) = require_hook_scope id r
  authorise r unknown = err unauthorized

  abbrev pub check_body : Request → Checked (Unit {0})
  check_body r =
      if not (is_trigger_post r.path) && not (is_raw_pty_post r.path)
      then check_content_type r
      else ok tt

  abbrev pub check_token : Request → Checked (Unit {0})
  check_token r = authorise r (classify (bearer_of r.authorization)) >>= λ u. check_body r

  unfoldable pub check : Request → Checked (Unit {0})
  unfolding host_ok require_hook_scope is_trigger_post is_raw_pty_post check_content_type bearer_of
  check r = require_host r >>= λ u. if r.path == "/v1/health" then ok tt else check_token r

-- The header `X-CoreTempo-Agent`, if it is there and names an agent.
abbrev pub claimed_agent : Header → Checked (Option AgentId)
claimed_agent absent = ok none
claimed_agent unreadable = err (invalid "X-CoreTempo-Agent header must be visible ASCII")
claimed_agent (text raw) =
    if is_valid (codes raw)
    then ok (some raw)
    else err (
        invalid (
          concat (
            "X-CoreTempo-Agent '" ∷ raw
            ∷ "' is not a valid agent id (pattern ^[a-z0-9][a-z0-9_-]{0,31}$)" ∷ [])))

abbrev pub hook_origin : AgentId → Option AgentId → Checked Origin
hook_origin id none = ok (agent id)
hook_origin id (some other) = if other == id then ok (agent id) else err wrong_agent

-- `request_id` is drawn at random.
abbrev pub header_origin : List AgentId → String → Option AgentId → Checked Origin
header_origin roster request_id none = ok (http request_id)
header_origin roster request_id (some id) =
    if member id roster
    then ok (agent id)
    else err (
        invalid (
          concat (
            "X-CoreTempo-Agent '"
            ∷ id
            ∷ "' is not in the roster; roster: "
            ∷ join ", " roster
            ∷ [])))

abbrev pub origin_for : List AgentId → String → Caller → Option AgentId → Checked Origin
origin_for roster request_id (hook id) claimed = hook_origin id claimed
origin_for roster request_id operator claimed = header_origin roster request_id claimed
origin_for roster request_id unknown claimed = header_origin roster request_id claimed

unfoldable pub caller_origin : List AgentId → String → (List ℕ → Caller) → Request → Checked Origin
caller_origin roster request_id classify r = do
  claimed ← claimed_agent r.claimed
  origin_for roster request_id (classify (bearer_of r.authorization)) claimed
