-- ===== src/Types/Ids.antt =====
-- core/src/types/id.rs: identifier newtypes, and which texts are agent ids. A newtype over `String`
-- is that text; `Timestamp` (core/src/time.rs) is too.
use core_tempo.Common.{
  ℕ, String, Bool, false, ◌&&◌, ◌||◌, List, [], ◌∷◌, leb, ltb, ◌==◌, if◌then◌else◌, all, length,
  nat_eq,
}

abbrev pub AgentId : Type 0
AgentId = String

abbrev pub MessageId : Type 0
MessageId = String

abbrev pub RunId : Type 0
RunId = String

abbrev pub ProjectId : Type 0
ProjectId = String

abbrev pub FlowName : Type 0
FlowName = String

abbrev pub Timestamp : Type 0
Timestamp = String

-- `u8::is_ascii_lowercase` and `u8::is_ascii_digit`.
abbrev is_ascii_lowercase : ℕ → Bool
is_ascii_lowercase b = leb b'a' b && leb b b'z'

abbrev is_ascii_digit : ℕ → Bool
is_ascii_digit b = leb b'0' b && leb b b'9'

abbrev is_tail_byte : ℕ → Bool
is_tail_byte b = is_ascii_lowercase b || is_ascii_digit b || b == b'_' || b == b'-'

-- `AgentId::is_valid`, over the bytes of the text.
unfoldable pub is_valid : List ℕ → Bool
is_valid [] = false
is_valid (first ∷ rest) =
    let head_ok = is_ascii_lowercase first || is_ascii_digit first in
    if ltb 32 (length (first ∷ rest)) then false else head_ok && all is_tail_byte rest
