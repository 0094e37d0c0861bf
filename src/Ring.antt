-- ===== src/Ring.antt =====
-- core/src/pty/ring.rs: the byte ring behind each agent's terminal, with cursors that count every byte
-- ever written. `u64` and `usize` do not wrap at the sizes of a run.
pub mod Window
use Prim.Native.Nat.{min, max}
use core_tempo.Common.{
  ℕ, ◌+◌, ◌-◌, ◌*◌, List, [], ◌++◌, Option, none, some, leb, if◌then◌else◌, length, drop,
}

abbrev pub ring_capacity : ℕ
ring_capacity = 256 * 1024

pub record ReplayRing : Type 0 where
  pub buf : List ℕ
  pub capacity : ℕ
  pub written : ℕ

unfoldable pub new : ℕ → ReplayRing
new capacity = record { buf = []; capacity = capacity; written = 0 }

unfoldable pub push : ReplayRing → List ℕ → ReplayRing
push r bytes = record r {
  buf =
      if leb r.capacity (length bytes)
      then drop (length bytes - r.capacity) bytes
      else (let overflow = (length r.buf + length bytes) - r.capacity in
          drop overflow r.buf ++ bytes);
  written = r.written + length bytes;
}

-- Cursor of the oldest byte still in the ring.
abbrev pub start : ReplayRing → ℕ
start r = r.written - length r.buf

-- Cursor one past the newest byte ever written.
abbrev pub end : ReplayRing → ℕ
end r = r.written

-- `clamp(start, written)`.
abbrev pub clamp : ℕ → ℕ → ℕ → ℕ
clamp lo hi x = max lo (min hi x)

abbrev pub from_cursor : ReplayRing → Option ℕ → ℕ
from_cursor r none = start r
from_cursor r (some since) = clamp (start r) r.written since

-- The cursor after the last byte, and the bytes from the cursor asked for.
unfoldable pub read_since : ReplayRing → Option ℕ → ℕ × List ℕ
read_since r since = (end r, drop (from_cursor r since - start r) r.buf)
