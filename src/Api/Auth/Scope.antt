-- ===== src/Api/Auth/Scope.antt =====
-- core/src/api/auth.rs: what a token can reach, and whom it can speak for.
use core_tempo.Common.{
  ℕ, ◌⊎◌, ◌≡◌, ◌≢◌, refl, String, true, List, [], ◌∷◌, Option, none, some, inl, inr, ◌==◌, ==_iff,
  string_eq, codes, Bool-cases, sym, ◌∙◌, ap, some-inj,
}
use core_tempo.Common.Dict.{Dict}
use core_tempo.Common.KeySet.{member}
use core_tempo.Types.Ids.{AgentId, is_valid}
use core_tempo.Types.Net.{IpAddr}
use core_tempo.Types.Message.{agent}
use core_tempo.Api.Auth.{
  Caller, operator, unknown, hook, Checked, ok, err, Header, absent, unreadable, text, header_text,
  Request, bearer_of, state_route, require_hook_scope, token_matches, classify_run, classify_hooks,
  classify_session, ◌>>=◌, authorise, check_body, check, host_ok, claimed_agent, hook_origin,
  header_origin, origin_for, caller_origin,
}

-- The token of one of the agents.
abbrev pub Holds : Dict AgentId String → AgentId → List ℕ → Type 0
Holds [] id bearer = ⊥
Holds ((key, token) ∷ tokens) id bearer =
    ((key ≡ id) × (token_matches token bearer ≡ true)) ⊎ Holds tokens id bearer

hook_kept :
    (tokens : Dict AgentId String) (id : AgentId) (bearer : List ℕ)
    → classify_hooks (hook id) tokens bearer ≡ hook id
unfolding classify_hooks
hook_kept [] id bearer = refl
hook_kept ((key, token) ∷ tokens) id bearer = hook_kept tokens id bearer

operator_kept :
    (tokens : Dict AgentId String) (bearer : List ℕ)
    → classify_hooks operator tokens bearer ≡ operator
unfolding classify_hooks
operator_kept [] bearer = refl
operator_kept ((key, token) ∷ tokens) bearer = operator_kept tokens bearer

hook-inj : {a b : AgentId} → hook a ≡ hook b → a ≡ b
hook-inj h = cc

classify_hooks-Holds :
    (tokens : Dict AgentId String) (id : AgentId) (bearer : List ℕ)
    → classify_hooks unknown tokens bearer ≡ hook id
    → Holds tokens id bearer
unfolding classify_hooks
classify_hooks-Holds [] id bearer h = cc
classify_hooks-Holds ((key, token) ∷ tokens) id bearer h =
    elim (Bool-cases (token_matches token bearer)) [
      | inl same ↦ inl (hook-inj (sym (hook_kept tokens key bearer) ∙ (rw same at h)), same)
      | inr other ↦ inr (classify_hooks-Holds tokens id bearer (rw other at h))
    ]

no_operator :
    (tokens : Dict AgentId String) (bearer : List ℕ)
    → classify_hooks unknown tokens bearer ≢ operator
unfolding classify_hooks
no_operator [] bearer h = cc
no_operator ((key, token) ∷ tokens) bearer h = elim (Bool-cases (token_matches token bearer)) [
  | inl same ↦
      let e : hook key ≡ operator = sym (hook_kept tokens key bearer) ∙ (rw same at h) in cc
  | inr other ↦ no_operator tokens bearer (rw other at h)
]

-- Who a bearer is, for the daemon of sessions.
abbrev pub Stands : String → Dict AgentId String → List ℕ → Caller → Type 0
Stands token tokens bearer operator = token_matches token bearer ≡ true
Stands token tokens bearer (hook id) = Holds tokens id bearer
Stands token tokens bearer unknown = Unit {0}

classify_session-Stands :
    (token : String) (tokens : Dict AgentId String) (bearer : List ℕ) (caller : Caller)
    → classify_session token tokens bearer ≡ caller
    → Stands token tokens bearer caller
unfolding classify_session classify_run
classify_session-Stands token tokens bearer unknown h = tt
classify_session-Stands token tokens bearer operator h =
    elim (Bool-cases (token_matches token bearer)) [
      | inl same ↦ same
      | inr other ↦ absurd (no_operator tokens bearer (rw other at h))
    ]
classify_session-Stands token tokens bearer (hook id) h =
    elim (Bool-cases (token_matches token bearer)) [
      | inl same ↦
          let e : operator ≡ hook id = sym (operator_kept tokens bearer) ∙ (rw same at h) in cc
      | inr other ↦ classify_hooks-Holds tokens id bearer (rw other at h)
    ]

>>=-eq-ok {ℓ κ} :
    {A : Type ℓ} {B : Type κ} (first : Checked A) (next : A → Checked B) {b : B}
    → (first >>= next) ≡ ok b
    → (passed : A) × (first ≡ ok passed) × (next passed ≡ ok b)
>>=-eq-ok (err refusal) next h = cc
>>=-eq-ok (ok passed) next h = (passed, refl, h)

ok-inj {ℓ} : {A : Type ℓ} {a b : A} → ok a ≡ ok b → a ≡ b
ok-inj {a} h = ap (λ c. elim c [ ok x ↦ x | err e ↦ a ]) h

agent-inj : {a b : AgentId} → agent a ≡ agent b → a ≡ b
agent-inj h = cc

-- What a passed request may be: the operator's, or one hook's report of its own agent's state.
abbrev pub Allowed : String → Dict AgentId String → Request → Type 0
Allowed token tokens r =
    (token_matches token (bearer_of r.authorization) ≡ true)
    ⊎ ((id : AgentId) × Holds tokens id (bearer_of r.authorization)
        × (r.is_post ≡ true)
        × (r.path ≡ state_route id))

hook_scope :
    (id : AgentId) (r : Request)
    → require_hook_scope id r ≡ ok tt
    → (r.is_post ≡ true) × (r.path ≡ state_route id)
unfolding require_hook_scope
hook_scope id r h = elim (Bool-cases r.is_post) [
  | inl post ↦ elim (Bool-cases (r.path == state_route id)) [
    | inl own ↦ (post, (==_iff r.path (state_route id)).0 own)
    | inr other ↦ cc (rw (post, other) at h)
  ]
  | inr get ↦ cc (rw get at h)
]

module _ (read_ip : List ℕ → Option IpAddr) (bind : IpAddr) (token : String)
    (tokens : Dict AgentId String) where
  abbrev Classify : List ℕ → Caller
  Classify = classify_session token tokens

  authorise-Allowed :
      (r : Request) (caller : Caller)
      → Classify (bearer_of r.authorization) ≡ caller
      → authorise read_ip bind Classify r caller ≡ ok tt
      → Allowed token tokens r
  authorise-Allowed r operator e h =
      inl (classify_session-Stands token tokens (bearer_of r.authorization) operator e)
  authorise-Allowed r unknown e h = cc
  authorise-Allowed r (hook id) e h =
      let (post, own) = hook_scope id r h in
      inr (
        id,
        classify_session-Stands token tokens (bearer_of r.authorization) (hook id) e,
        post,
        own,
      )

-- A request that the guard passes came for an allowed host; and unless it asks for the health, it
-- bears the operator's token, or an agent's hook token and reports that very agent's state.
pub check-Allowed :
    (read_ip : List ℕ → Option IpAddr) (bind : IpAddr) (token : String)
    (tokens : Dict AgentId String) (r : Request)
    → check read_ip bind (classify_session token tokens) r ≡ ok tt
    → (host_ok read_ip bind (header_text r.host) ≡ true)
      × ((r.path ≡ "/v1/health") ⊎ Allowed token tokens r)
unfolding check
check-Allowed read_ip bind token tokens r h =
    elim (Bool-cases (host_ok read_ip bind (header_text r.host))) [
      | inl good ↦ (
        good,
        elim (Bool-cases (r.path == "/v1/health")) [
          | inl health ↦ inl ((==_iff r.path "/v1/health").0 health)
          | inr other ↦
              let (u, passed, body) =
                >>=-eq-ok
                  (authorise read_ip bind (classify_session token tokens) r
                    (classify_session token tokens (bearer_of r.authorization)))
                  (λ _. check_body read_ip bind (classify_session token tokens) r)
                  (rw (good, other) at h) in
              inr (
                authorise-Allowed read_ip bind token tokens r
                  (classify_session token tokens (bearer_of r.authorization)) refl passed)
        ],
      )
      | inr bad ↦ cc (rw bad at h)
    ]

-- Who may speak as an agent.
abbrev pub SpeaksAs : List AgentId → Dict AgentId String → Request → AgentId → Type 0
SpeaksAs roster tokens r id =
    Holds tokens id (bearer_of r.authorization)
    ⊎ ((r.claimed ≡ text id) × (member id roster ≡ true))

claimed-text : (h : Header) (id : AgentId) → claimed_agent h ≡ ok (some id) → h ≡ text id
claimed-text absent id h = cc
claimed-text unreadable id h = cc
claimed-text (text raw) id h = elim (Bool-cases (is_valid (codes raw))) [
  | inl valid ↦ let e : some raw ≡ some id = ok-inj (rw valid at h) in rw (some-inj e)
  | inr bad ↦ cc (rw bad at h)
]

header_origin-agent :
    (roster : List AgentId) (request_id : String) (claimed : Option AgentId) (id : AgentId)
    → header_origin roster request_id claimed ≡ ok (agent id)
    → (claimed ≡ some id) × (member id roster ≡ true)
header_origin-agent roster request_id none id h = cc
header_origin-agent roster request_id (some other) id h = elim (Bool-cases (member other roster)) [
  | inl known ↦ let e : other ≡ id = agent-inj (ok-inj (rw known at h)) in (rw e, rw (← e) known)
  | inr strange ↦ cc (rw strange at h)
]

hook_origin-agent :
    (own : AgentId) (claimed : Option AgentId) (id : AgentId)
    → hook_origin own claimed ≡ ok (agent id)
    → own ≡ id
hook_origin-agent own none id h = agent-inj (ok-inj h)
hook_origin-agent own (some other) id h = elim (Bool-cases (other == own)) [
  | inl same ↦ agent-inj (ok-inj (rw same at h))
  | inr wrong ↦ cc (rw wrong at h)
]

-- A request is from an agent only where it bears that agent's hook token, or the header names the
-- agent and the roster has it.
pub caller_origin-SpeaksAs :
    (roster : List AgentId) (request_id token : String) (tokens : Dict AgentId String) (r : Request)
    (id : AgentId)
    → caller_origin roster request_id (classify_session token tokens) r ≡ ok (agent id)
    → SpeaksAs roster tokens r id
unfolding caller_origin
caller_origin-SpeaksAs roster request_id token tokens r id h =
    let (claimed, e, from) =
      >>=-eq-ok (claimed_agent r.claimed)
        (origin_for roster request_id (classify_session token tokens (bearer_of r.authorization)))
        h in
    at claimed e (classify_session token tokens (bearer_of r.authorization)) refl from
  where
    by_header :
        (claimed : Option AgentId)
        → claimed_agent r.claimed ≡ ok claimed
        → header_origin roster request_id claimed ≡ ok (agent id)
        → SpeaksAs roster tokens r id
    by_header claimed e from =
        let (named, known) = header_origin-agent roster request_id claimed id from in
        inr (claimed-text r.claimed id (e ∙ ap ok named), known)

    at :
        (claimed : Option AgentId)
        → claimed_agent r.claimed ≡ ok claimed
        → (caller : Caller) → classify_session token tokens (bearer_of r.authorization) ≡ caller
        → origin_for roster request_id caller claimed ≡ ok (agent id)
        → SpeaksAs roster tokens r id
    at claimed e operator c from = by_header claimed e from
    at claimed e unknown c from = by_header claimed e from
    at claimed e (hook own) c from =
        let same = hook_origin-agent own claimed id from in
        inl (
          rw (← same)
            (classify_session-Stands token tokens (bearer_of r.authorization) (hook own) c))
