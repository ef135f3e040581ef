-- ===== src/Connection.antt =====
-- src/connection.rs: `Receiver`, the task that reads a connection and hands each message to
-- whoever waits for it.
-- A oneshot sender and a consumer's channel are named by numbers; what goes into them, and what
-- goes out to the broker, is the list of effects.
pub mod Keys
pub mod Dispatch
pub mod Untouched
pub mod Rendezvous
pub mod Sender
pub mod Stale
pub mod Answers
pub mod Access
use Keys.{
  RequestKey, request_id, producer_send, consumer, close_consumer, auth_challenge, request_key,
}
use pulsar_rdg_rs.Prelude.{
  ℕ, Bool, true, false, Option, none, some, List, [], ◌∷◌, ◌++◌, if◌then◌else◌,
}
use pulsar_rdg_rs.Prelude.Maps.{Map, lookup, insert, remove, nat_eq}
use pulsar_rdg_rs.Proto.{BaseCommand, MessageMetadata, Present}
use pulsar_rdg_rs.Codec
use Keys.{request_key_eq}

abbrev pub Message : Type 0
Message = Codec.Message BaseCommand MessageMetadata

-- The kinds of ConnectionError that a receiver sets; `other` is one that the stream gave.
pub data ReceiverError : Type 0 where
  disconnected : ReceiverError
  other : ℕ → ReceiverError

pub data Register : Type 0 where
  request : RequestKey → ℕ → Register
  register_consumer : ℕ → ℕ → Register
  remove_consumer : ℕ → Register
  register_ping : ℕ → Register

-- `control_open` says whether the control channel takes messages.
pub record Receiver : Type 0 where
  pub pending_requests : Map RequestKey ℕ
  pub consumers : Map ℕ ℕ
  pub received_messages : Map RequestKey Message
  pub ping : Option ℕ
  pub error : Option ReceiverError
  pub control_open : Bool

pub data Effect : Type 0 where
  resolve : ℕ → Message → Effect
  to_consumer : ℕ → Message → Effect
  ping_answered : ℕ → Effect
  pong_sent auth_challenged : Effect

-- Receiver::new
abbrev pub new : Receiver
new = record {
  pending_requests = [];
  consumers = [];
  received_messages = [];
  ping = none;
  error = none;
  control_open = true;
}

unfoldable pub register_request :
    Receiver → RequestKey → ℕ → Option Message → Receiver × List Effect
register_request r key resolver (some msg) =
    (record r { received_messages = remove key r.received_messages }, resolve resolver msg ∷ [])
register_request r key resolver none =
    (record r { pending_requests = insert key resolver r.pending_requests }, [])

-- One item of the first loop of `poll`.
unfoldable pub on_register : Receiver → Register → Receiver × List Effect
unfolding register_request
on_register r (request key resolver) =
    register_request r key resolver (lookup key r.received_messages)
on_register r (register_consumer consumer_id resolver) =
    (record r { consumers = insert consumer_id resolver r.consumers }, [])
on_register r (remove_consumer consumer_id) =
    (record r { consumers = remove consumer_id r.consumers }, [])
on_register r (register_ping resolver) = (record r { ping = some resolver }, [])

unfoldable pub on_response : Receiver → RequestKey → Message → Option ℕ → Receiver × List Effect
on_response r key msg (some resolver) =
    (record r { pending_requests = remove key r.pending_requests }, resolve resolver msg ∷ [])
on_response r key msg none =
    (record r { received_messages = insert key msg r.received_messages }, [])

abbrev pub send_to : Message → Option ℕ → List Effect
send_to msg none = []
send_to msg (some tx) = to_consumer tx msg ∷ []

unfoldable pub on_close : Receiver → ℕ → ℕ → Message → Option ℕ → Receiver × List Effect
on_close r consumer_id id msg (some resolver) = (
  record r { pending_requests = remove (request_id id) r.pending_requests },
  resolve resolver msg ∷ [],
)
on_close r consumer_id id msg none = (r, send_to msg (lookup consumer_id r.consumers))

unfoldable pub on_keyed : Receiver → Message → Option RequestKey → Receiver × List Effect
unfolding on_response on_close
on_keyed r msg (some (request_id id)) =
    on_response r (request_id id) msg (lookup (request_id id) r.pending_requests)
on_keyed r msg (some (producer_send producer_id sequence_id)) =
    on_response r (producer_send producer_id sequence_id) msg
      (lookup (producer_send producer_id sequence_id) r.pending_requests)
on_keyed r msg (some (consumer consumer_id)) = (r, send_to msg (lookup consumer_id r.consumers))
on_keyed r msg (some (close_consumer consumer_id id)) =
    on_close r consumer_id id msg (lookup (request_id id) r.pending_requests)
on_keyed r msg (some auth_challenge) = (r, auth_challenged ∷ [])
on_keyed r msg none = (r, [])

abbrev pub answer_ping : Option ℕ → List Effect
answer_ping none = []
answer_ping (some sender) = ping_answered sender ∷ []

unfoldable pub on_command :
    Receiver → Message → Option Present → Option Present → Receiver × List Effect
on_command r msg (some p) pong =
    if r.control_open then (r, pong_sent ∷ []) else (record r { error = some disconnected }, [])
on_command r msg none (some p) = (record r { ping = none }, answer_ping r.ping)
on_command r msg none none = on_keyed r msg (request_key msg.command)

-- One message of the second loop of `poll`.
unfoldable pub on_message : Receiver → Message → Receiver × List Effect
unfolding on_command
on_message r msg = on_command r msg msg.command.ping msg.command.pong

-- What polling the registrations gives: items, then nothing for now or the channel's end.
pub data Registrations : Type 0 where
  next_register : Register → Registrations → Registrations
  no_more registrations_closed : Registrations

pub data Inbound : Type 0 where
  next_message : Message → Inbound → Inbound
  waiting inbound_ended : Inbound
  inbound_failed : ReceiverError → Inbound

-- Poll<Result<(), ()>>: the receiver only ever ends with `Err(())`.
pub data Poll : Type 0 where
  pending ready_err : Poll

pub record Polled : Type 0 where
  pub poll_result : Poll
  pub receiver : Receiver
  pub effects : List Effect

abbrev pub before : List Effect → Polled → Polled
before es p = record p { effects = es ++ p.effects }

unfoldable pub poll_inbound : Receiver → Inbound → Polled
poll_inbound r (next_message msg rest) =
    before (on_message r msg).1 (poll_inbound (on_message r msg).0 rest)
poll_inbound r waiting = record { poll_result = pending; receiver = r; effects = [] }
poll_inbound r inbound_ended = record {
  poll_result = ready_err;
  receiver = record r { error = some disconnected };
  effects = [];
}
poll_inbound r (inbound_failed e) = record {
  poll_result = ready_err;
  receiver = record r { error = some e };
  effects = [];
}

unfoldable pub poll_registrations : Receiver → Registrations → Inbound → Polled
poll_registrations r (next_register reg rest) inbound =
    before (on_register r reg).1 (poll_registrations (on_register r reg).0 rest inbound)
poll_registrations r no_more inbound = poll_inbound r inbound
poll_registrations r registrations_closed inbound = record {
  poll_result = ready_err;
  receiver = record r { error = some disconnected };
  effects = [];
}

-- Receiver::poll; `shutdown` says whether the shutdown signal has come.
unfoldable pub poll : Receiver → Bool → Registrations → Inbound → Polled
poll r shutdown registrations inbound =
    if shutdown
    then record { poll_result = ready_err; receiver = r; effects = [] }
    else poll_registrations r registrations inbound
