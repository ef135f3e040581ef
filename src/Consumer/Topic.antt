-- ===== src/Consumer/Topic.antt =====
-- src/consumer/topic.rs: `TopicConsumer`, what it hands to the caller and whether there is more.
-- The broker's answer to the question for the topic's last message id is an argument.
use pulsar_rdg_rs.Prelude.{
  ℕ, ◌+◌, Bool, true, false, Option, none, some, Result, ok, if◌then◌else◌, ltb, ◌==◌, ◌>>=◌,
}
use pulsar_rdg_rs.Prelude.Int.{ℤ, pos, ltb_ℤ, ◌+ℤ◌, as_i64}
use pulsar_rdg_rs.Proto.{MessageIdData, MessageMetadata}
use pulsar_rdg_rs.Codec.{Payload}
use pulsar_rdg_rs.Consumer.Engine.{ConsumerOptions}

pub record TopicConsumer : Type 0 where
  pub last_dequeued_message_id : Option MessageIdData
  pub last_message_received : Option ℕ
  pub messages_received : ℕ
  pub options : ConsumerOptions

-- `index + 1 < size`, where the id has both.
abbrev pub partly : Option ℤ → Option ℤ → Bool
partly (some index) (some size) = ltb_ℤ (index +ℤ pos 1) size
partly _ _ = false

unfoldable pub partly_read : Option MessageIdData → Bool
partly_read none = false
partly_read (some dequeued) = partly dequeued.batch_index dequeued.batch_size

-- The position that the last id is compared with, and whether it counts as unread itself.
unfoldable pub position : TopicConsumer → Option MessageIdData → Option MessageIdData × Bool
position c (some dequeued) = (some dequeued, false)
position c none = (c.options.start_message_id, c.options.start_message_id_inclusive)

-- `cmp` of the pairs of ledger and entry, and the match on it.
unfoldable pub compared : MessageIdData → MessageIdData → Bool → Bool
compared last position inclusive =
    if last.ledger_id == position.ledger_id
    then (if last.entry_id == position.entry_id
        then inclusive
        else ltb position.entry_id last.entry_id)
    else ltb position.ledger_id last.ledger_id

unfoldable pub against : MessageIdData → Option MessageIdData × Bool → Bool
unfolding compared
against last (none, inclusive) = true
against last (some position, inclusive) = compared last position inclusive

unfoldable pub available : TopicConsumer → MessageIdData → Bool
available c last =
    if ltb_ℤ (as_i64 last.entry_id) (pos 0)
    then false
    else against last (position c c.last_dequeued_message_id)

-- TopicConsumer::has_message_available
unfoldable pub has_message_available :
    {E : Type 0} → TopicConsumer → Result E MessageIdData → Result E Bool
has_message_available c last =
    if partly_read c.last_dequeued_message_id
    then ok true
    else last >>= λ last. ok (available c last)

-- What the channel from the engine gives.
pub data Polled (E : Type 0) : Type 0 where
  pending closed : Polled E
  message : MessageIdData → Payload MessageMetadata → Polled E
  failed : E → Polled E

-- TopicConsumer::poll_next: the state after it; the caller gets what the channel gave.
unfoldable pub poll_next : {E : Type 0} → TopicConsumer → ℕ → Polled E → TopicConsumer
poll_next c now pending = c
poll_next c now closed = c
poll_next c now (message id p) = record c {
  last_dequeued_message_id = some id;
  last_message_received = some now;
  messages_received = c.messages_received + 1;
}
poll_next c now (failed e) = c
