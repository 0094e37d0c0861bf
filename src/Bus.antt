-- ===== src/Bus.antt =====
-- core/src/bus.rs: the event bus, sole authority over event numbers, with its replay ring. The
-- broadcast channel is the sequence of the events sent; `u64` numbers do not wrap in a run.
pub mod Replay
use core_tempo.Common.{
  ℕ, suc, ◌+◌, List, [], ◌∷◌, ◌++◌, Bool, Option, none, some, ltb, ◌==◌, nat_eq, if◌then◌else◌,
  length, drop, filter,
}
use core_tempo.Types.Ids.{Timestamp}
use core_tempo.Types.Event.{Event, EventPayload}

abbrev pub replay_ring : ℕ
replay_ring = 1024

pub record Bus : Type 0 where
  pub seq : ℕ
  pub ring : List Event
  pub sent : List Event

unfoldable pub new : Bus
new = record { seq = 0; ring = []; sent = [] }

-- `pop_front` and `push_back`, under the ring's lock.
unfoldable pub push_ring : ℕ → List Event → Event → List Event
push_ring cap ring event = (if length ring == cap then drop 1 ring else ring) ++ event ∷ []

-- Returns the number given.
unfoldable pub publish : Bus → Timestamp → EventPayload → Bus × ℕ
unfolding push_ring
publish b now payload =
    let seq = b.seq + 1 in
    let event : Event = record { seq = seq; ts = now; payload = payload } in
    (
      record b {
        seq = seq;
        ring = push_ring replay_ring b.ring event;
        sent = b.sent ++ event ∷ [];
      },
      seq,
    )

abbrev pub last_seq : Bus → ℕ
last_seq b = b.seq

abbrev pub newer : ℕ → List Event → List Event
newer since = filter (λ e. ltb since e.seq)

-- `none`: the events asked for have left the ring.
unfoldable pub replay : List Event → ℕ → ℕ → Option (List Event)
replay [] last since = if ltb since last then none else some []
replay (first ∷ rest) last since =
    if ltb (since + 1) first.seq then none else some (newer since (first ∷ rest))

unfoldable pub replay_since : Bus → ℕ → Option (List Event)
unfolding replay
replay_since b since = replay b.ring (last_seq b) since
