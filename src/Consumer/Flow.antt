-- ===== src/Consumer/Flow.antt =====
-- Flow control: the messages that a consumer has asked for against those that came.
use pulsar_rdg_rs.Prelude.{◌≡◌, none, some}
use pulsar_rdg_rs.Prelude.Int.{ℤ, pos, ◌+ℤ◌}
use pulsar_rdg_rs.Consumer.Engine.{ConsumerEngine}
use pulsar_rdg_rs.Consumer.Steps.{counted, Turn, EngineEvent, message_event}
use pulsar_rdg_rs.Consumer.Quiet.{granted}

-- What an event counts for.
abbrev pub event_count : EngineEvent → ℤ
event_count (message_event (some m)) = counted m.payload
event_count _ = pos 0

-- The event is not the broker's closing of the consumer, which resets the count.
abbrev pub KeepsConsumer : EngineEvent → Type 0
KeepsConsumer (message_event (some m)) = m.command.close_consumer ≡ none
KeepsConsumer _ = Unit

record IsCounted (e : ConsumerEngine) (n : ℤ) (t : Turn) : Type 0 where
  counts : t.engine.remaining_messages +ℤ n ≡ e.remaining_messages
  no_permits : granted t.effects ≡ 0
