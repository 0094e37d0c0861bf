-- ===== src/Trigger/Payload.antt =====
-- core/src/trigger.rs: `normalize_payload` and `read_payload`, on bytes.
use core_tempo.Common.{
  zero, suc, false, ℕ, ◌+◌, ◌*◌, ◌≤◌, ◌≡◌, ◌≢◌, Bool, true, ◌&&◌, String, List, [], ◌∷◌, ◌++◌, map,
  arith, inl, inr, ◌==◌, nat_eq, if◌then◌else◌, ltb, leb, length, length-append, All, Bool-cases,
  ap, ◌∙◌,
}
use mathlib.Core.List.{append_assoc, append-nil}

-- `replace("\r\n", "\n")`.
unfoldable pub replace_crlf : List ℕ → List ℕ
replace_crlf [] = []
replace_crlf (b ∷ []) = b ∷ []
replace_crlf (b ∷ c ∷ bytes) =
    let pair = 10 ∷ replace_crlf bytes in
    let other = b ∷ replace_crlf (c ∷ bytes) in if b == 13 && c == 10 then pair else other

-- `replace('\r', "\n")`.
unfoldable pub replace_cr : List ℕ → List ℕ
replace_cr [] = []
replace_cr (b ∷ bytes) = (if b == 13 then 10 else b) ∷ replace_cr bytes

unfoldable pub normalize_payload : List ℕ → List ℕ
unfolding replace_crlf replace_cr
normalize_payload raw = replace_cr (replace_crlf raw)

abbrev pub payload_cap_bytes : ℕ
payload_cap_bytes = 64 * 1024

pub data PayloadError : Type 0 where
  too_large not_utf8 : PayloadError
  unreadable : String → PayloadError

pub data Read : Type 0 where
  text : List ℕ → Read
  refused : PayloadError → Read

-- What the request's stream gives next.
pub data Chunk : Type 0 where
  bytes : List ℕ → Chunk
  broken : String → Chunk

-- `str::from_utf8`: what the next byte of a character has to be, with the number of those after it.
pub data Utf8 : Type 0 where
  at_start : Utf8
  continues : ℕ → ℕ → ℕ → Utf8
  bad : Utf8

abbrev within : ℕ → ℕ → ℕ → Bool
within low high b = leb low b && leb b high

abbrev pub lead : ℕ → Utf8
lead b =
    if ltb b 0x80
    then at_start
    else if within 0xc2 0xdf b
    then continues 0x80 0xbf 0
    else if b == 0xe0
    then continues 0xa0 0xbf 1
    else if b == 0xed
    then continues 0x80 0x9f 1
    else if within 0xe1 0xef b
    then continues 0x80 0xbf 1
    else if b == 0xf0
    then continues 0x90 0xbf 2
    else if within 0xf1 0xf3 b
    then continues 0x80 0xbf 2
    else if b == 0xf4
    then continues 0x80 0x8f 2
    else bad

abbrev pub after_byte : Utf8 → ℕ → Utf8
after_byte at_start b = lead b
after_byte bad b = bad
after_byte (continues low high zero) b = if within low high b then at_start else bad
after_byte (continues low high (suc n)) b = if within low high b then continues 0x80 0xbf n else bad

unfoldable pub ends_whole : Utf8 → List ℕ → Bool
ends_whole at_start [] = true
ends_whole (continues low high n) [] = false
ends_whole bad [] = false
ends_whole state (b ∷ more) = ends_whole (after_byte state b) more

unfoldable pub is_utf8 : List ℕ → Bool
unfolding ends_whole
is_utf8 = ends_whole at_start

unfoldable pub read_chunks : List ℕ → List Chunk → Read
unfolding normalize_payload is_utf8
read_chunks buf [] = if is_utf8 buf then text (normalize_payload buf) else refused not_utf8
read_chunks buf (broken error ∷ stream) = refused (unreadable error)
read_chunks buf (bytes chunk ∷ stream) =
    let rest = read_chunks (buf ++ chunk) stream in
    if ltb payload_cap_bytes (length buf + length chunk) then refused too_large else rest

unfoldable pub read_payload : List Chunk → Read
unfolding read_chunks
read_payload stream = read_chunks [] stream

abbrev pub joined : List (List ℕ) → List ℕ
joined [] = []
joined (chunk ∷ chunks) = chunk ++ joined chunks

-- A body measured once it is read.
abbrev pub whole : List ℕ → Read
whole body =
    if ltb payload_cap_bytes (length body)
    then refused too_large
    else if is_utf8 body
    then text (normalize_payload body)
    else refused not_utf8

read_chunks-whole :
    (chunks : List (List ℕ)) (buf : List ℕ)
    → length buf ≤ payload_cap_bytes
    → read_chunks buf (map bytes chunks) ≡ whole (buf ++ joined chunks)
unfolding read_chunks
read_chunks-whole [] buf h = rw (append-nil buf) (ground arith)
read_chunks-whole (chunk ∷ chunks) buf h =
    elim (Bool-cases (ltb payload_cap_bytes (length buf + length chunk))) [
      | inl large ↦
          let more : ltb payload_cap_bytes (length (buf ++ (chunk ++ joined chunks))) ≡ true =
            ground (
              arith,
              length-append buf (chunk ++ joined chunks),
              length-append chunk (joined chunks),
            ) in
          rw (large, more)
      | inr small ↦ rw small (
          read_chunks-whole chunks (buf ++ chunk) (ground (arith, length-append buf chunk))
          ∙ ap (whole) (append_assoc buf chunk (joined chunks)))
    ]

no_cr : (body : List ℕ) → All (λ b. b ≢ 13) (replace_cr body)
unfolding replace_cr
no_cr [] = tt
no_cr (b ∷ rest) = (λ h. ground arith, no_cr rest)

-- A body in any chunks is read as if it had been measured whole; no carriage return is left in it, so
-- that nothing in it submits the prompt.
pub read_payload_lem :
    (chunks : List (List ℕ))
    → (read_payload (map bytes chunks) ≡ whole (joined chunks))
      × All (λ b. b ≢ 13) (normalize_payload (joined chunks))
unfolding read_payload normalize_payload
read_payload_lem chunks =
    (read_chunks-whole chunks [] (omega arith), no_cr (replace_crlf (joined chunks)))
