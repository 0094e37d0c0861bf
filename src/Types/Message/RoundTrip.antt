-- ===== src/Types/Message/RoundTrip.antt =====
-- core/src/types/message.rs: what is written as text is read back, and only that.
use core_tempo.Common.{
  String, false, none, some, ◌⊎◌, ◌≡◌, inl, inr, refl, ◌==◌, ==_iff, str_append, strip_prefix,
  strip_prefix-append, is_empty, strip_prefix_other, Differ, Bool-cases, string_eq,
}
use core_tempo.Types.Message.{
  MessageKind, MessageStatus, ask, send, kind_as_str, parse_kind, queued, injected, working,
  replied, done, failed, Origin, agent, user, http, trigger, status_as_str, parse_status,
  origin_text, parse_origin, nonempty_after,
}

-- A status column read back is the status that was written, and no other text is accepted.
pub parse_status-status_as_str : (m : MessageStatus) → parse_status (status_as_str m) ≡ some m
unfolding parse_status status_as_str
parse_status-status_as_str queued = refl
parse_status-status_as_str injected = refl
parse_status-status_as_str working = refl
parse_status-status_as_str replied = refl
parse_status-status_as_str done = refl
parse_status-status_as_str failed = refl

-- An origin can be written only with something after its scheme.
abbrev pub HasPayload : Origin → Type 0
HasPayload (agent id) = is_empty id ≡ false
HasPayload user = Unit {0}
HasPayload (http req) = is_empty req ≡ false
HasPayload (trigger hex) = is_empty hex ≡ false

not_user : (p s : String) → strip_prefix p "user" ≡ none → (str_append p s == "user") ≡ false
not_user p s h = elim (Bool-cases (str_append p s == "user")) [
  | inl same ↦ cc (strip_prefix-append p s, (==_iff (str_append p s) "user").0 same, h)
  | inr other ↦ other
]

nonempty_after-append :
    (p s : String) → is_empty s ≡ false → nonempty_after p (str_append p s) ≡ some s
unfolding nonempty_after
nonempty_after-append p s h = rw (strip_prefix-append p s, nonempty_after, h)

nonempty_after_other : (p q s : String) → Differ p q → nonempty_after p (str_append q s) ≡ none
unfolding nonempty_after
nonempty_after_other p q s h = rw (strip_prefix_other p q s h, nonempty_after)

-- An origin that names someone is read back from its text as it was written.
pub parse_origin-origin_text : (o : Origin) → HasPayload o → parse_origin (origin_text o) ≡ some o
unfolding parse_origin origin_text
parse_origin-origin_text (agent id) h =
    rw (not_user "agent:" id (unfold strip_prefix in refl), nonempty_after-append "agent:" id h)
parse_origin-origin_text user h = refl
parse_origin-origin_text (http req) h = rw (
  not_user "http:" req (unfold strip_prefix in refl),
  nonempty_after_other "agent:" "http:" req refl,
  nonempty_after-append "http:" req h,
)
parse_origin-origin_text (trigger hex) h = rw (
  not_user "trigger:" hex (unfold strip_prefix in refl),
  nonempty_after_other "agent:" "trigger:" hex refl,
  nonempty_after_other "http:" "trigger:" hex refl,
  nonempty_after-append "trigger:" hex h,
)

-- An origin is read back as it was written, or not at all.
pub parse_origin-cases :
    (o : Origin) → (parse_origin (origin_text o) ≡ some o) ⊎ (parse_origin (origin_text o) ≡ none)
parse_origin-cases user = inl (parse_origin-origin_text user tt)
parse_origin-cases (agent String.[]) =
    inr (unfold parse_origin origin_text nonempty_after strip_prefix in refl)
parse_origin-cases (agent (String.◌∷◌ c s)) =
    inl (parse_origin-origin_text (agent (String.◌∷◌ c s)) refl)
parse_origin-cases (http String.[]) =
    inr (unfold parse_origin origin_text nonempty_after strip_prefix in refl)
parse_origin-cases (http (String.◌∷◌ c s)) =
    inl (parse_origin-origin_text (http (String.◌∷◌ c s)) refl)
parse_origin-cases (trigger String.[]) =
    inr (unfold parse_origin origin_text nonempty_after strip_prefix in refl)
parse_origin-cases (trigger (String.◌∷◌ c s)) =
    inl (parse_origin-origin_text (trigger (String.◌∷◌ c s)) refl)

pub parse_kind-kind_as_str : (k : MessageKind) → parse_kind (kind_as_str k) ≡ some k
unfolding parse_kind kind_as_str
parse_kind-kind_as_str ask = refl
parse_kind-kind_as_str send = refl
