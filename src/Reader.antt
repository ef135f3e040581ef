-- ===== src/Reader.antt =====
-- src/reader.rs: `Reader`, which acknowledges every message before it returns it. What a poll of
-- the future that sends the acknowledgement to the engine gives is an argument.
use pulsar_rdg_rs.Prelude.{
  continued, ℕ, Bool, true, Option, none, some, List, [], ◌∷◌, ◌++◌, Result,
}
use pulsar_rdg_rs.Proto.{MessageIdData}
use pulsar_rdg_rs.Consumer.Topic
use pulsar_rdg_rs.Consumer.Topic.{Polled, pending, closed, message, failed}
use pulsar_rdg_rs.Consumer.Multi.{Body, Item, Member, polled, poll_member}
pub mod Acked
pub mod Ordering

pub data State : Type 0 where
  polling_consumer : State
  polling_ack : Body → State

pub record Reader (E : Type 0) : Type 0 where
  pub consumer : Member E
  pub state : Option State

-- What a poll of the reader gives.
pub data Next (E : Type 0) : Type 0 where
  not_ready finished not_acked : Next E
  item : Body → Next E
  consumer_failed : E → Next E

-- What a poll of the future gives that sends Ack(message_id, false) to the engine.
pub data AckPoll : Type 0 where
  waiting sent refused : AckPoll

-- The reader after a poll, what the poll gives, and the acknowledgements that have gone out.
pub record Answer (E : Type 0) : Type 0 where
  pub reader : Reader E
  pub next : Next E
  pub acked : List MessageIdData

abbrev pub reader_of : {E : Type 0} → Member E → State → Reader E
reader_of c s = record { consumer = c; state = some s }

-- The branch of PollingAck, with all arms of the source. The engine's channel is unbounded, and a
-- send to it is ready at once, so that `waiting` is not met with this channel.
unfoldable pub on_ack : {E : Type 0} → Body → AckPoll → Member E → Answer E
on_ack m waiting c = record { reader = reader_of c (polling_ack m); next = not_ready; acked = [] }
on_ack (id, p) sent c = record {
  reader = reader_of c polling_consumer;
  next = item (id, p);
  acked = id ∷ [];
}
on_ack m refused c = record { reader = reader_of c polling_consumer; next = not_acked; acked = [] }

-- The branch of PollingConsumer, for what the consumer gives; a message is followed by a poll of
-- the acknowledgement at once.
unfoldable pub on_consumer : {E : Type 0} → AckPoll → Polled E → Member E → Answer E
unfolding on_ack
on_consumer ack pending c = record {
  reader = reader_of c polling_consumer;
  next = not_ready;
  acked = [];
}
on_consumer ack closed c = record {
  reader = reader_of c polling_consumer;
  next = finished;
  acked = [];
}
on_consumer ack (message id p) c = on_ack (id, p) ack c
on_consumer ack (failed e) c = record {
  reader = reader_of c polling_consumer;
  next = consumer_failed e;
  acked = [];
}

-- `none` is the panic of `state.take().unwrap()`.
abbrev pub poll_state : {E : Type 0} → Option State → ℕ → AckPoll → Member E → Option (Answer E)
poll_state none now ack c = none
poll_state (some polling_consumer) now ack c = some (on_consumer ack (polled c) (poll_member now c))
poll_state (some (polling_ack m)) now ack c = some (on_ack m ack c)

-- Reader::poll_next
unfoldable pub poll_reader : {E : Type 0} → ℕ → AckPoll → Reader E → Option (Answer E)
unfolding on_consumer on_ack polled poll_member
poll_reader now ack r = poll_state r.state now ack r.consumer

-- The engine fills the channel or ends, and the caller polls.
pub data Event (E : Type 0) : Type 0 where
  arrived : Item E → Event E
  gone : Event E
  poll : ℕ → AckPoll → Event E

-- Everything that was returned and acknowledged up to a state of the reader.
pub record Run (E : Type 0) : Type 0 where
  pub reader : Reader E
  pub returned : List Body
  pub acked : List MessageIdData

abbrev pub items_of : {E : Type 0} → Next E → List Body
items_of not_ready = []
items_of finished = []
items_of not_acked = []
items_of (item m) = m ∷ []
items_of (consumer_failed e) = []

abbrev pub answered : {E : Type 0} → Run E → Answer E → Run E
answered r a = record {
  reader = a.reader;
  returned = r.returned ++ items_of a.next;
  acked = r.acked ++ a.acked;
}

abbrev pub on_answer : {E : Type 0} → Run E → Option (Answer E) → Option (Run E)
on_answer r none = none
on_answer r (some a) = some (answered r a)

abbrev pub put_item : {E : Type 0} → Item E → Reader E → Reader E
put_item x r = record r { consumer = record r.consumer { items = r.consumer.items ++ x ∷ [] } }

abbrev pub end_channel : {E : Type 0} → Reader E → Reader E
end_channel r = record r { consumer = record r.consumer { ended = true } }

unfoldable pub step : {E : Type 0} → Event E → Run E → Option (Run E)
unfolding poll_reader
step (arrived x) r = some (record r { reader = put_item x r.reader })
step gone r = some (record r { reader = end_channel r.reader })
step (poll now ack) r = on_answer r (poll_reader now ack r.reader)

unfoldable pub run : {E : Type 0} → List (Event E) → Run E → Option (Run E)
unfolding step
run [] r = some r
run (e ∷ es) r = continued (run es) (step e r)
