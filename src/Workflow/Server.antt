-- ===== src/Workflow/Server.antt =====
-- core/src/workflow.rs: `resolve_server`, the precedence of the server settings and the token.
use Prim.Native.String.{String}
use core_tempo.Common.{
  ℕ, ◌≡◌, refl, Bool, true, false, ◌&&◌, ◌||◌, Option, none, some, arith, ◌==◌, nat_eq,
  if◌then◌else◌, leb, all, codes, length, trim_text, or_else, unwrap_or, ap, inl, inr, Bool-cases,
}
use core_tempo.Types.Config.{WorkflowFile}
use core_tempo.Types.Net.{IpAddr, localhost, is_loopback}
use core_tempo.Workflow.Validate.{Outcome, ok, err}

-- `parse_token`: 64 lowercase hex characters.
unfoldable pub parse_token : String → Option String
parse_token s =
    if length (codes s) == 64
      && all (λ c. (leb b'0' c && leb c b'9') || (leb b'a' c && leb c b'f')) (codes s)
    then some s
    else none

pub record ServerOverrides : Type 0 where
  pub bind : Option IpAddr
  pub port : Option ℕ
  pub db : Option String
  pub token : Option String
  pub token_file : Option String
  pub log : Option String

pub record ResolvedServer : Type 0 where
  pub bind : IpAddr
  pub port : ℕ
  pub db : String
  pub token : String
  pub token_provisioned : Bool
  pub log : String

pub data ConfigError : Type 0 where
  io bad_token_file : String → ConfigError
  non_loopback_without_token : IpAddr → ConfigError

-- What reading a file gives is a parameter, and so is the generated token.
module _ (read_to_string : String → Option String) (generated : String) where
  abbrev pub parse_file : String → Option String → Outcome String ConfigError
  parse_file path none = err (bad_token_file path)
  parse_file path (some token) = ok token

  abbrev pub read_at : String → Option String → Outcome String ConfigError
  read_at path none = err (io path)
  read_at path (some text) = parse_file path (parse_token (trim_text text))

  pub read_token_file : String → Outcome String ConfigError
  unfolding parse_token trim_text
  read_token_file path = read_at path (read_to_string path)

  -- The token and whether it was provisioned.
  abbrev pub token_at : IpAddr → Outcome String ConfigError → Outcome (String × Bool) ConfigError
  token_at bind (ok token) = ok (token, true)
  token_at bind (err e) = err e

  pub choose_token : IpAddr → Option String → Option String → Outcome (String × Bool) ConfigError
  unfolding read_token_file
  choose_token bind (some token) file = ok (token, true)
  choose_token bind none (some path) = token_at bind (read_token_file path)
  choose_token bind none none =
      if is_loopback bind then ok (generated, false) else err (non_loopback_without_token bind)

  abbrev pub with_token :
      (String × Bool → ResolvedServer)
      → Outcome (String × Bool) ConfigError
      → Outcome ResolvedServer ConfigError
  with_token server (ok token) = ok (server token)
  with_token server (err e) = err e

  unfoldable pub resolve_server :
      ServerOverrides → ServerOverrides → WorkflowFile → Outcome ResolvedServer ConfigError
  unfolding choose_token
  resolve_server flags env file =
      let bind = unwrap_or localhost (or_else (or_else flags.bind env.bind) file.server.bind) in
      let token_file = or_else (or_else flags.token_file env.token_file) file.server.token_file in
      with_token
        (λ token. record {
          bind = bind;
          port = unwrap_or file.workflow.port (or_else flags.port env.port);
          db = unwrap_or file.workflow.db (or_else flags.db env.db);
          token = token.0;
          token_provisioned = token.1;
          log = unwrap_or "info" (or_else (or_else flags.log env.log) file.server.log);
        })
        (choose_token bind env.token token_file)

  -- Why a token was generated.
  record IsGenerated (bind : IpAddr) (token file : Option String) (chosen : String) : Type 0 where
    pub no_token : token ≡ none
    pub no_file : file ≡ none
    pub local : is_loopback bind ≡ true
    pub fresh : chosen ≡ generated

  choose_token-IsGenerated :
      (bind : IpAddr) (token file : Option String) (chosen : String × Bool)
      → choose_token bind token file ≡ ok chosen
      → chosen.1 ≡ false
      → IsGenerated bind token file chosen.0
  unfolding choose_token
  choose_token-IsGenerated bind (some token) file (t, p) h new = absurd (ground arith)
  choose_token-IsGenerated bind none (some path) (t, p) h new = from (read_token_file path) h
    where
      from :
          (read : Outcome String ConfigError)
          → token_at bind read ≡ ok (t, p)
          → IsGenerated bind none (some path) t
      from (ok token) h = absurd (ground arith)
      from (err e) h = cc
  choose_token-IsGenerated bind none none (t, p) h new = elim (Bool-cases (is_loopback bind)) [
    | inl local ↦ record { no_token = refl; no_file = refl; local = local; fresh = ground arith }
    | inr away ↦ cc (rw away at h)
  ]

  with_token-eq-ok :
      (f : String × Bool → ResolvedServer) (o : Outcome (String × Bool) ConfigError)
      (server : ResolvedServer)
      → with_token f o ≡ ok server
      → (chosen : String × Bool) × (o ≡ ok chosen) × (f chosen ≡ server)
  with_token-eq-ok f (ok chosen) server h = (chosen, refl, cc)
  with_token-eq-ok f (err e) server h = cc

  -- A token is generated only where neither the environment nor a token file of any layer gives one,
  -- and only for a server bound to the loopback.
  pub resolve_server-generated :
      (flags env : ServerOverrides) (file : WorkflowFile) (server : ResolvedServer)
      → resolve_server flags env file ≡ ok server
      → server.token_provisioned ≡ false
      → (is_loopback server.bind ≡ true)
        × (server.token ≡ generated)
        × (env.token ≡ none)
        × (flags.token_file ≡ none)
        × (env.token_file ≡ none)
        × (file.server.token_file ≡ none)
  unfolding resolve_server
  resolve_server-generated flags env file server h new =
      let (chosen, e, same) = with_token-eq-ok _ _ server h in
      let p : chosen.1 ≡ false = rw (ap (λ s. s.token_provisioned) same) new in
      let g =
        choose_token-IsGenerated
          (unwrap_or localhost (or_else (or_else flags.bind env.bind) file.server.bind)) env.token
          (or_else (or_else flags.token_file env.token_file) file.server.token_file) chosen e p in
      let no_file = g.no_file in
      rw (← same) (g.local, g.fresh, g.no_token, ground arith, ground arith, ground arith)
