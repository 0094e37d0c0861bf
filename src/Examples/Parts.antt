-- ===== src/Examples/Parts.antt =====
-- The theorems on the bus, the terminal and the text forms, at small values.
use core_tempo.Base64
use core_tempo.Base64.RoundTrip.{decode-encode}
use core_tempo.Time
use core_tempo.Time.Calendar.{day_number}
use core_tempo.Time.DayNumber.{civil-day_number}
use core_tempo.Common.{◌≤◌, arith}
use core_tempo.Common.{
  ℕ, ◌-◌, ◌≡◌, ◌↔◌, refl, true, List, [], ◌∷◌, ◌++◌, none, some, length, drop, string_eq, nat_eq,
  if◌then◌else◌, arith,
}
use core_tempo.Types.Config.{Edge, AgentConfig, FrozenWorkflow}
use core_tempo.Types.Config
use core_tempo.Bus
use core_tempo.Bus.Replay.{publish_all, stamped, replay_since-publish_all}
use core_tempo.Common.{ltb}
use core_tempo.Terminal.Queue
use core_tempo.Terminal.Queue.Order.{answered, in_hand, tickets}
use core_tempo.Terminal.Queue.Whole.{fresh, answers_in_order}
use core_tempo.Terminal.Queue.Silence.{dialog_gets_nothing}
use core_tempo.Terminal.Coalesce
use core_tempo.Terminal.Coalesce.Stream.{joined, Held, coalesce_lem}
use core_tempo.Terminal.Stripper
use core_tempo.Terminal.Stripper.Chunks.{feed_all, join_all, feed_again}
use core_tempo.Terminal.Stripper.Grammar.{Shown}
use core_tempo.Terminal.Stripper.Sequences.{feed_all-Shown}
use core_tempo.Ring
use core_tempo.Ring.Window.{pushes, read_since-pushes, read_since_resumes}
use core_tempo.Types.Ids.{Timestamp}
use core_tempo.Types.Event.{EventPayload, agent_nudged, agent_stalled}
use core_tempo.Common.{leb}

abbrev payloads : List (Timestamp × EventPayload)
payloads =
    ("2026-01-01T00:00:00Z", agent_nudged "critic")
    ∷ ("2026-01-01T00:00:01Z", agent_stalled "critic")
    ∷ []

replay_since-publish_all_example : Bus.replay_since (publish_all Bus.new payloads) 1 ≡ (
    if leb (length payloads - Bus.replay_ring) 1 then some (drop 1 (stamped 0 payloads)) else none)
replay_since-publish_all_example = replay_since-publish_all payloads 1

read_since-pushes_example :
    Ring.read_since (pushes (Ring.new 4) ((1 ∷ 2 ∷ 3 ∷ []) ∷ (4 ∷ 5 ∷ 6 ∷ []) ∷ [])) (some 1)
    ≡ (6, 3 ∷ 4 ∷ 5 ∷ 6 ∷ [])
read_since-pushes_example = read_since-pushes 4 ((1 ∷ 2 ∷ 3 ∷ []) ∷ (4 ∷ 5 ∷ 6 ∷ []) ∷ []) 1

read_since_resumes_example :
    (Ring.read_since
      (pushes (pushes (Ring.new 4) ((1 ∷ 2 ∷ 3 ∷ []) ∷ [])) ((4 ∷ 5 ∷ []) ∷ []))
      (some (Ring.read_since (pushes (Ring.new 4) ((1 ∷ 2 ∷ 3 ∷ []) ∷ [])) none).0)).1
    ≡ 4 ∷ 5 ∷ []
read_since_resumes_example =
    read_since_resumes 4 ((1 ∷ 2 ∷ 3 ∷ []) ∷ []) ((4 ∷ 5 ∷ []) ∷ []) (omega arith)

-- An injection that is delivered while a second one waits, and then the agent exits.
abbrev queue_events : List (ℕ × Queue.Event)
queue_events =
    (0, Queue.arrives (Queue.inject 1 "first"))
    ∷ (1, Queue.takes_command none)
    ∷ (2, Queue.arrives (Queue.inject 2 "second"))
    ∷ (401, Queue.elapses none)
    ∷ (500, Queue.state_changes Config.exited)
    ∷ (501, Queue.sees_state none)
    ∷ (502, Queue.sees_state none)
    ∷ []

answers_in_order_example :
    (answered (Queue.run (fresh "critic" Config.idle true) queue_events).acks
        ++ (in_hand (Queue.run (fresh "critic" Config.idle true) queue_events).phase
            ++ tickets (Queue.run (fresh "critic" Config.idle true) queue_events).cmds)
      ≡ 1 ∷ 2 ∷ [])
    × ((Queue.run (fresh "critic" Config.idle true) queue_events).depth
        ≡ length (
            in_hand (Queue.run (fresh "critic" Config.idle true) queue_events).phase
            ++ tickets (Queue.run (fresh "critic" Config.idle true) queue_events).cmds))
answers_in_order_example = answers_in_order "critic" Config.idle true queue_events

-- Text has been typed, and a dialog opened before its Enter.
abbrev interrupted : Queue.QueueWorker
interrupted = record (fresh "critic" Config.idle true) {
  phase = Queue.typed 1 Queue.from_loop;
  depth = 1;
  written = "first" ∷ [];
  blocked = some (record { since = 100; tool = none });
}

dialog_gets_nothing_example :
    (Queue.step interrupted (400, Queue.elapses none)).written ≡ "first" ∷ []
dialog_gets_nothing_example =
    dialog_gets_nothing interrupted 400 (Queue.elapses none) (record { since = 100; tool = none })
      refl refl

abbrev wakes : List Coalesce.Wake
wakes =
    Coalesce.received (1 ∷ 2 ∷ [])
    ∷ Coalesce.received (3 ∷ [])
    ∷ Coalesce.elapsed
    ∷ Coalesce.received (4 ∷ [])
    ∷ Coalesce.closed
    ∷ []

coalesce_lem_example :
    (joined (Coalesce.coalesce Coalesce.start wakes).flushed
        ++ (Coalesce.coalesce Coalesce.start wakes).pending
      ≡ 1 ∷ 2 ∷ 3 ∷ 4 ∷ [])
    × (ltb (length (Coalesce.coalesce Coalesce.start wakes).pending) Coalesce.flush_bytes ≡ true)
    × Held
        (Coalesce.coalesce Coalesce.start wakes).phase
        (Coalesce.coalesce Coalesce.start wakes).pending
coalesce_lem_example = coalesce_lem wakes

-- A colour sequence, split in two.
feed_all-Shown_example :
    (feed_all Stripper.text ((104 ∷ 27 ∷ 91 ∷ []) ∷ (51 ∷ 109 ∷ 105 ∷ []) ∷ [])
      ≡ (104 ∷ 105 ∷ [], Stripper.text))
    ↔ Shown (join_all ((104 ∷ 27 ∷ 91 ∷ []) ∷ (51 ∷ 109 ∷ 105 ∷ []) ∷ [])) (104 ∷ 105 ∷ [])
feed_all-Shown_example =
    feed_all-Shown ((104 ∷ 27 ∷ 91 ∷ []) ∷ (51 ∷ 109 ∷ 105 ∷ []) ∷ []) (104 ∷ 105 ∷ [])

feed_again_example :
    Stripper.feed Stripper.text (Stripper.feed Stripper.text (104 ∷ 27 ∷ 91 ∷ 109 ∷ 105 ∷ [])).0
    ≡ ((Stripper.feed Stripper.text (104 ∷ 27 ∷ 91 ∷ 109 ∷ 105 ∷ [])).0, Stripper.text)
feed_again_example = feed_again Stripper.text (104 ∷ 27 ∷ 91 ∷ 109 ∷ 105 ∷ [])

decode-encode_example :
    Base64.decode (Base64.encode (255 ∷ 0 ∷ 27 ∷ 102 ∷ [])) ≡ some (255 ∷ 0 ∷ 27 ∷ 102 ∷ [])
decode-encode_example =
    decode-encode (255 ∷ 0 ∷ 27 ∷ 102 ∷ [])
      (omega arith, (omega arith, (omega arith, (omega arith, tt))))

-- The leap day of 2000.
civil-day_number_example :
    (day_number (Time.civil 11016) ≡ 730544)
    × (1 ≤ (Time.civil 11016).month)
    × ((Time.civil 11016).month ≤ 12)
    × (1 ≤ (Time.civil 11016).day)
    × ((Time.civil 11016).day ≤ 31)
civil-day_number_example = civil-day_number 11016
