-- ===== src/Common/Text.antt =====
-- Text as the code uses it: prefixes, joins, and numbers in decimal, over the native `String`.
use Prim.Native.Nat.{ℕ, zero, suc, ◌+◌, ◌-◌, ◌*◌, ◌^◌, ◌/◌, ◌%◌}
use core_tempo.Common.Lists.{length}
use Prim.Native.Char.{code}
use Prim.Native.String.{String}
use Prim.Native.String.{◌++◌ as str_append, compare}
use Prim.Native.String.append
use mathlib.Core.Path.{◌≡◌, sym, ap₂, ◌∙◌}
use mathlib.Core.Logic.{inl, inr}
use mathlib.Core.Bool.{Bool, true, false, ◌&&◌, ◌||◌}
use mathlib.Core.Option.{Option, none, some}
use native.Mathlib.Omega.{arith}
use text.Mathlib.Text.{is_le}
use text.Mathlib.TextEquality.{Char-path}
use mathlib.Core.List.{List, [], ◌∷◌, reverse}
use core_tempo.Common.Tests.{if◌then◌else◌, leb, is_some, ltb, nat_beq, nat_beq_iff, Bool-cases}

abbrev pub codes : String → List ℕ
codes String.[] = []
codes (String.◌∷◌ c s) = code c ∷ codes s

-- The parts of a `format!`, one after the other.
unfoldable pub concat : List String → String
concat [] = ""
concat (s ∷ ss) = str_append s (concat ss)

-- `slice::join`.
unfoldable pub join : String → List String → String
join sep [] = ""
join sep (s ∷ []) = s
join sep (s ∷ t ∷ ss) = str_append s (str_append sep (join sep (t ∷ ss)))

abbrev digit : ℕ → String
digit d =
    if nat_beq d 0
    then "0"
    else if nat_beq d 1
    then "1"
    else if nat_beq d 2
    then "2"
    else if nat_beq d 3
    then "3"
    else if nat_beq d 4
    then "4"
    else if nat_beq d 5
    then "5"
    else if nat_beq d 6
    then "6"
    else if nat_beq d 7
    then "7"
    else if nat_beq d 8
    then "8"
    else "9"

show_fuel : ℕ → ℕ → String
show_fuel zero n = ""
show_fuel (suc f) n =
    let rest = str_append (show_fuel f (n / 10)) (digit (n % 10)) in
    if ltb n 10 then digit n else rest

-- `{}` of an unsigned integer. A number has at most as many digits as its successor says.
unfoldable pub show : ℕ → String
unfolding show_fuel
show n = show_fuel (suc n) n

-- The order of texts: that of their bytes.
abbrev pub str_leb : String → String → Bool
str_leb a b = is_le (compare a b)

-- `str::strip_prefix`, the prefix first.
unfoldable pub strip_prefix : String → String → Option String
strip_prefix String.[] s = some s
strip_prefix (String.◌∷◌ c p) String.[] = none
strip_prefix (String.◌∷◌ c p) (String.◌∷◌ d s) =
    if nat_beq (code c) (code d) then strip_prefix p s else none

-- The same on code points.
unfoldable pub strip : List ℕ → List ℕ → Option (List ℕ)
strip [] s = some s
strip (c ∷ p) [] = none
strip (c ∷ p) (d ∷ s) = if nat_beq c d then strip p s else none

-- `str::starts_with` and `str::ends_with`, the affix first.
unfoldable pub starts_with : List ℕ → List ℕ → Bool
unfolding strip
starts_with p s = is_some (strip p s)

unfoldable pub ends_with : List ℕ → List ℕ → Bool
unfolding starts_with
ends_with p s = starts_with (reverse p) (reverse s)

-- `char::is_whitespace`: the code points with the property White_Space.
abbrev pub is_whitespace : ℕ → Bool
is_whitespace c =
    (leb 9 c && leb c 13)
    || nat_beq c 32
    || nat_beq c 0x85
    || nat_beq c 0xa0
    || nat_beq c 0x1680
    || (leb 0x2000 c && leb c 0x200a)
    || nat_beq c 0x2028
    || nat_beq c 0x2029
    || nat_beq c 0x202f
    || nat_beq c 0x205f
    || nat_beq c 0x3000

unfoldable pub trim_start : List ℕ → List ℕ
trim_start [] = []
trim_start (c ∷ s) = if is_whitespace c then trim_start s else c ∷ s

-- `str::trim`.
unfoldable pub trim : List ℕ → List ℕ
unfolding trim_start
trim s = reverse (trim_start (reverse (trim_start s)))

-- `str::trim`, of a text: first at its end, then at its start.
unfoldable pub trim_text_end : String → String
trim_text_end String.[] = String.[]
trim_text_end (String.◌∷◌ c s) =
    let rest = trim_text_end s in
    if is_whitespace (code c) && nat_beq (length (codes rest)) 0
    then String.[]
    else String.◌∷◌ c rest

unfoldable pub trim_text_start : String → String
trim_text_start String.[] = String.[]
trim_text_start (String.◌∷◌ c s) =
    if is_whitespace (code c) then trim_text_start s else String.◌∷◌ c s

unfoldable pub trim_text : String → String
unfolding trim_text_end trim_text_start
trim_text s = trim_text_start (trim_text_end s)

abbrev is_digit : ℕ → Bool
is_digit c = leb 48 c && leb c 57

unfoldable pub read_digits : ℕ → List ℕ → Option ℕ
read_digits n [] = some n
read_digits n (c ∷ s) =
    let rest = read_digits (n * 10 + (c - 48)) s in if is_digit c then rest else none

abbrev pub within_u64 : Option ℕ → Option ℕ
within_u64 none = none
within_u64 (some n) = if ltb n (2 ^ 64) then some n else none

-- `parse::<u64>` of a text without a sign.
abbrev unsigned : List ℕ → Option ℕ
unsigned [] = none
unsigned (c ∷ s) = within_u64 (read_digits 0 (c ∷ s))

-- `parse::<u64>`, which takes a `+` before the digits.
unfoldable pub parse_u64 : List ℕ → Option ℕ
unfolding read_digits
parse_u64 [] = none
parse_u64 (c ∷ s) = if nat_beq c 43 then unsigned s else unsigned (c ∷ s)

abbrev pub is_empty : String → Bool
is_empty String.[] = true
is_empty (String.◌∷◌ c s) = false

pub strip_prefix-append : (p s : String) → strip_prefix p (str_append p s) ≡ some s
unfolding strip_prefix
strip_prefix-append String.[] s = rw (append.nil s)
strip_prefix-append (String.◌∷◌ c p) s =
    rw (append.cons c p s) (ground (arith, strip_prefix-append p s))

pub append-strip_prefix :
    (p s : String) {r : String} → strip_prefix p s ≡ some r → s ≡ str_append p r
unfolding strip_prefix
append-strip_prefix String.[] s {r} h = cc (append.nil r)
append-strip_prefix (String.◌∷◌ c p) String.[] h = cc
append-strip_prefix (String.◌∷◌ c p) (String.◌∷◌ d s) {r} h =
    elim (Bool-cases (nat_beq (code c) (code d))) [
      | inl same ↦
          ap₂ String.◌∷◌ (Char-path d c (sym ((nat_beq_iff _ _).0 same)))
            (append-strip_prefix p s {r = r} (rw same at h))
          ∙ sym (append.cons c p r)
      | inr other ↦ cc (rw other at h)
    ]

-- Two prefixes that differ in their first character.
abbrev pub Differ : String → String → Type 0
Differ String.[] q = ⊥
Differ (String.◌∷◌ c p) String.[] = ⊥
Differ (String.◌∷◌ c p) (String.◌∷◌ d q) = nat_beq (code c) (code d) ≡ false

pub strip_prefix_other : (p q s : String) → Differ p q → strip_prefix p (str_append q s) ≡ none
unfolding strip_prefix
strip_prefix_other String.[] q s h = absurd h
strip_prefix_other (String.◌∷◌ c p) String.[] s h = absurd h
strip_prefix_other (String.◌∷◌ c p) (String.◌∷◌ d q) s h = rw (append.cons d q s) (rw h)
