-- ===== src/Schema/Repair.antt =====
-- core/src/schema.rs: `repair_text` and `balanced_span`, on the characters of a text. The bytes that
-- the code compares are ASCII, and no byte of another character is.
pub mod Spans
use core_tempo.Common.{
  ℕ, zero, suc, ◌+◌, ◌-◌, Bool, true, false, not, ◌&&◌, ◌||◌, List, [], ◌∷◌, ◌++◌, Option, none,
  some, ◌==◌, nat_eq, if◌then◌else◌, codes, trim, strip, or_else, unwrap_or,
}
use mathlib.Core.Option

abbrev pub fence : List ℕ
fence = codes "```"

abbrev is_here : Option (List ℕ) → Option (List ℕ)
is_here none = none
is_here (some rest) = some []

-- The text before the last fence.
pub before_last_fence : List ℕ → Option (List ℕ)
unfolding strip
before_last_fence [] = none
before_last_fence (c ∷ s) =
    or_else (Option.map (λ before. c ∷ before) (before_last_fence s))
      (is_here (strip fence (c ∷ s)))

abbrev pub is_open : ℕ → Bool
is_open c = c == b'{' || c == b'['

abbrev pub is_close : ℕ → Bool
is_close c = c == b'}' || c == b']'

abbrev pub quote : ℕ
quote = b'"'

abbrev pub backslash : ℕ
backslash = 92

-- `in_string` and `escaped`, which is only set inside a string.
pub data Mode : Type 0 where
  outside in_string in_escape : Mode

abbrev outside_mode : ℕ → Mode
outside_mode c = if c == quote then in_string else outside

abbrev string_mode : ℕ → Mode
string_mode c = if c == backslash then in_escape else if c == quote then outside else in_string

-- The flags and the depth after one character.
abbrev pub mode_after : Mode → ℕ → Mode
mode_after outside c = outside_mode c
mode_after in_string c = string_mode c
mode_after in_escape c = in_string

abbrev pub depth_after : Mode → ℕ → ℕ → ℕ
depth_after outside depth c =
    if is_open c then suc depth else if is_close c then depth - 1 else depth
depth_after in_string depth c = depth
depth_after in_escape depth c = depth

-- A closing bracket that brings the depth to 0, or finds it there, ends the span.
abbrev pub ends_span : Mode → ℕ → ℕ → Bool
ends_span outside depth c = is_close c && depth - 1 == 0
ends_span in_string depth c = false
ends_span in_escape depth c = false

pub scan : Mode → ℕ → List ℕ → Option (List ℕ)
scan mode depth [] = none
scan mode depth (c ∷ s) =
    let rest = Option.map (λ t. c ∷ t) (scan (mode_after mode c) (depth_after mode depth c) s) in
    if ends_span mode depth c then some (c ∷ []) else rest

-- From the first bracket on.
pub balanced_span : List ℕ → Option (List ℕ)
balanced_span [] = none
balanced_span (c ∷ s) = if is_open c then scan outside 0 (c ∷ s) else balanced_span s

abbrev starts_open : List ℕ → Bool
starts_open [] = false
starts_open (c ∷ s) = is_open c

abbrev unfenced : List ℕ → Option (List ℕ) → List ℕ
unfenced text none = text
unfenced text (some rest) =
    let inner = unwrap_or rest (strip (codes "json") rest) in
    unwrap_or text (Option.map trim (before_last_fence inner))

pub strip_fence : List ℕ → List ℕ
unfolding strip before_last_fence trim
strip_fence text = unfenced text (strip fence text)

pub repair_text : List ℕ → List ℕ
unfolding strip_fence balanced_span scan
repair_text raw =
    let text = strip_fence (trim raw) in
    if starts_open text then text else unwrap_or text (balanced_span text)
