-- ===== src/Terminal/Stripper.antt =====
-- core/src/pty/detector.rs: `AnsiStripper`, with bytes and the characters that pass as numbers.
pub mod Chunks
pub mod Grammar
pub mod Sequences
use core_tempo.Common.{ℕ, Bool, true, false, ◌&&◌, List, [], ◌∷◌, ◌++◌, nat_beq, leb, if◌then◌else◌}

pub data StripMode : Type 0 where
  text esc csi osc osc_esc : StripMode

abbrev pub printable : ℕ → Bool
printable b = leb 32 b && leb b 126

-- What a byte adds to the output, and the mode after it.
unfoldable pub strip_byte : StripMode → ℕ → List ℕ × StripMode
strip_byte text b =
    if nat_beq b 27
    then ([], esc)
    else if nat_beq b 10
    then (10 ∷ [], text)
    else if printable b
    then (b ∷ [], text)
    else ([], text)
strip_byte esc b =
    if nat_beq b 91 then ([], csi) else if nat_beq b 93 then ([], osc) else ([], text)
strip_byte csi b = if leb 64 b && leb b 126 then ([], text) else ([], csi)
strip_byte osc b =
    if nat_beq b 7 then ([], text) else if nat_beq b 27 then ([], osc_esc) else ([], osc)
strip_byte osc_esc b = ([], text)

unfoldable pub feed : StripMode → List ℕ → List ℕ × StripMode
unfolding strip_byte
feed mode [] = ([], mode)
feed mode (b ∷ bytes) =
    let (out, next) = strip_byte mode b in let (rest, last) = feed next bytes in (out ++ rest, last)
