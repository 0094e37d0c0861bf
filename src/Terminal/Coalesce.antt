-- ===== src/Terminal/Coalesce.antt =====
-- core/src/pty/ring.rs: `coalesce`, as a state machine over what it waits for. A deadline is set when a
-- batch gets its first bytes.
pub mod Stream
use core_tempo.Common.{
  ℕ, ◌*◌, Bool, true, false, List, [], ◌∷◌, ◌++◌, Option, none, some, ltb, length, if◌then◌else◌,
}

abbrev pub flush_interval : ℕ
flush_interval = 8

abbrev pub flush_bytes : ℕ
flush_bytes = 32 * 1024

-- A read of at least one byte, the deadline of the current batch, or the end of the reads.
pub data Wake : Type 0 where
  received : List ℕ → Wake
  elapsed : Wake
  closed : Wake

-- Waiting for the first bytes of a batch, for more of them, or returned.
pub data Phase : Type 0 where
  waiting batching returned : Phase

-- `flushed` are the calls of `flush`, in order.
pub record Coalescer : Type 0 where
  pub phase : Phase
  pub pending : List ℕ
  pub flushed : List (List ℕ)

abbrev pub start : Coalescer
start = record { phase = waiting; pending = []; flushed = [] }

abbrev pub flush : Phase → Coalescer → Coalescer
flush next c = record { phase = next; pending = []; flushed = c.flushed ++ c.pending ∷ [] }

-- The test of the inner loop, after bytes have come.
abbrev pub extend : List ℕ → Coalescer → Coalescer
extend bytes c =
    let more = record c { phase = batching; pending = c.pending ++ bytes } in
    if ltb (length more.pending) flush_bytes then more else flush waiting more

abbrev pub wake_at : Phase → Coalescer → Wake → Coalescer
wake_at waiting c (received bytes) = extend bytes c
wake_at waiting c elapsed = c
wake_at waiting c closed = record c { phase = returned }
wake_at batching c (received bytes) = extend bytes c
wake_at batching c elapsed = flush waiting c
wake_at batching c closed = flush returned c
wake_at returned c wake = c

unfoldable pub coalesce : Coalescer → List Wake → Coalescer
coalesce c [] = c
coalesce c (wake ∷ wakes) = coalesce (wake_at c.phase c wake) wakes
