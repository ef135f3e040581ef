-- ===== src/Connection/Stale.antt =====
-- What a receiver keeps of requests that are never answered.
use pulsar_rdg_rs.Prelude.{
  ℕ, ◌≡◌, ◌∙◌, refl, ap, true, false, Option, none, some, List, [], ◌∷◌, arith,
}
use pulsar_rdg_rs.Prelude.Maps.{lookup, lookup-insert, lookup-remove, beq_refl}
use pulsar_rdg_rs.Errors.{slow_down}
use pulsar_rdg_rs.Proto.{Present}
use pulsar_rdg_rs.Connection.{
  Message, Receiver, request, on_register, register_request, on_message, on_command, on_keyed,
  on_response, on_close,
}
use pulsar_rdg_rs.Connection.Keys.{
  RequestKey, request_id, producer_send, consumer, close_consumer, auth_challenge, request_key,
  request_key_eq,
}
use pulsar_rdg_rs.Connection.Untouched.{Event, run, none_concerns, run-Keeps}
use pulsar_rdg_rs.Connection.Sender.{Channels, refused, send_via, begin, send, has_room, registered}

waits :
    (key : RequestKey) (tx : ℕ) (r : Receiver)
    → lookup key r.received_messages ≡ none
    → lookup key (on_register r (request key tx)).0.pending_requests ≡ some tx
unfolding on_register register_request
waits key tx r h =
    ap (λ o. lookup key (register_request r key tx o).0.pending_requests) h
    ∙ ground (arith, lookup-insert key key tx r.pending_requests, beq_refl key)

-- A producer that does not block sends a message while the data channel is open and full, on a
-- connection whose registrations are taken, and nothing was received for the message: the caller is
-- told to slow down, nothing is added to the data channel, but the request is registered. From then
-- on the receiver keeps the request, whatever happens to other requests, although no answer to it
-- can come.
pub send-stale :
    (producer_id sequence_id tx : ℕ) (msg : Message) (c : Channels) (r : Receiver) (es : List Event)
    → c.registrations_open ≡ true
    → c.data_open ≡ true
    → has_room c ≡ false
    → lookup (producer_send producer_id sequence_id) r.received_messages ≡ none
    → none_concerns (producer_send producer_id sequence_id) es ≡ true
    → let key = producer_send producer_id sequence_id in
      (send producer_id sequence_id tx msg false c ≡ (registered key tx c, refused slow_down))
      × (lookup key (run (on_register r (request key tx)).0 es).0.pending_requests ≡ some tx)
unfolding send begin send_via
send-stale producer_id sequence_id tx msg c r es o d f free quiet = (
  ground (arith, o, d, f),
  (run-Keeps (producer_send producer_id sequence_id)
        (on_register r (request (producer_send producer_id sequence_id) tx)).0 es quiet).pending
      ∙ waits (producer_send producer_id sequence_id) tx r free,
)

-- The receiver after some messages.
abbrev pub messages : Receiver → List Message → Receiver
messages r [] = r
messages r (msg ∷ msgs) = messages (on_message r msg).0 msgs

-- The state of the key auth_challenge.
abbrev IsLeft : Receiver → Receiver → Type 0
IsLeft r s = (lookup auth_challenge s.pending_requests ≡ lookup auth_challenge r.pending_requests)

on_response-IsLeft :
    (r : Receiver) (key : RequestKey) (msg : Message) (o : Option ℕ)
    → request_key_eq.beq key auth_challenge ≡ false
    → IsLeft r (on_response r key msg o).0
unfolding on_response
on_response-IsLeft r key msg none e = refl
on_response-IsLeft r key msg (some tx) e =
    ground (arith, lookup-remove key auth_challenge r.pending_requests)

on_close-IsLeft :
    (r : Receiver) (consumer_id id : ℕ) (msg : Message) (o : Option ℕ)
    → IsLeft r (on_close r consumer_id id msg o).0
unfolding on_close
on_close-IsLeft r consumer_id id msg none = refl
on_close-IsLeft r consumer_id id msg (some tx) =
    ground (arith, lookup-remove (request_id id) auth_challenge r.pending_requests)

on_keyed-IsLeft :
    (r : Receiver) (msg : Message) (o : Option RequestKey) → IsLeft r (on_keyed r msg o).0
unfolding on_keyed
on_keyed-IsLeft r msg none = refl
on_keyed-IsLeft r msg (some (request_id id)) =
    on_response-IsLeft r (request_id id) msg (lookup (request_id id) r.pending_requests) refl
on_keyed-IsLeft r msg (some (producer_send a b)) =
    on_response-IsLeft r (producer_send a b) msg (lookup (producer_send a b) r.pending_requests)
      refl
on_keyed-IsLeft r msg (some (consumer consumer_id)) = refl
on_keyed-IsLeft r msg (some (close_consumer consumer_id id)) =
    on_close-IsLeft r consumer_id id msg (lookup (request_id id) r.pending_requests)
on_keyed-IsLeft r msg (some auth_challenge) = refl

on_command-IsLeft :
    (r : Receiver) (msg : Message) (ping pong : Option Present)
    → IsLeft r (on_command r msg ping pong).0
unfolding on_command
on_command-IsLeft r msg (some p) pong = ground arith
on_command-IsLeft r msg none (some p) = refl
on_command-IsLeft r msg none none = on_keyed-IsLeft r msg (request_key msg.command)

messages-IsLeft : (r : Receiver) (msgs : List Message) → IsLeft r (messages r msgs)
unfolding on_message
messages-IsLeft r [] = refl
messages-IsLeft r (msg ∷ msgs) =
    messages-IsLeft (on_message r msg).0 msgs
    ∙ on_command-IsLeft r msg msg.command.ping msg.command.pong

-- A request under the key of an authentication challenge, as ConnectionSender's auth_challenge
-- makes it, when no message is kept under this key: no message whatever takes it out of the pending
-- requests, so that nothing answers it.
pub auth_challenge-unanswered :
    (tx : ℕ) (r : Receiver) (msgs : List Message)
    → lookup auth_challenge r.received_messages ≡ none
    → lookup auth_challenge
        (messages (on_register r (request auth_challenge tx)).0 msgs).pending_requests
      ≡ some tx
auth_challenge-unanswered tx r msgs h =
    messages-IsLeft (on_register r (request auth_challenge tx)).0 msgs ∙ waits auth_challenge tx r h
