-- ===== src/Connection/Dispatch.antt =====
-- The maps of a `Receiver`: no key waits on both sides.
use pulsar_rdg_rs.Prelude.{
  ℕ, ◌≡◌, ◌⊎◌, inl, refl, Bool, true, false, Option, none, some, List, [], ◌∷◌, arith,
  if◌then◌else◌,
}
use pulsar_rdg_rs.Prelude.Maps.{lookup, lookup-insert, lookup-remove}
use pulsar_rdg_rs.Proto.{Present}
use pulsar_rdg_rs.Connection.Keys.{
  RequestKey, request_id, producer_send, consumer, close_consumer, auth_challenge, request_key,
  request_key_eq, key_eq_iff,
}
use pulsar_rdg_rs.Connection.{
  Message, Receiver, Register, request, register_consumer, remove_consumer, register_ping, Effect,
  pong_sent, disconnected, new, register_request, on_register, on_response, on_close, on_keyed,
  on_command, on_message, Inbound, next_message, waiting, inbound_ended, inbound_failed,
  Registrations, next_register, no_more, registrations_closed, poll_inbound, poll_registrations,
  poll,
}

-- Of a request that is waited for no message is kept.
pub record IsSeparated (r : Receiver) : Type 0 where
  pub apart :
      (k : RequestKey)
      → (lookup k r.pending_requests ≡ none) ⊎ (lookup k r.received_messages ≡ none)

register_request-IsSeparated :
    (r : Receiver) (key : RequestKey) (tx : ℕ) (o : Option Message)
    → lookup key r.received_messages ≡ o
    → IsSeparated r
    → IsSeparated (register_request r key tx o).0
unfolding register_request
register_request-IsSeparated r key tx (some msg) e v = record {
  apart = λ k. ground (arith, lookup-remove key k r.received_messages, v.apart k);
}
register_request-IsSeparated r key tx none e v = record {
  apart =
      λ k. ground (arith, lookup-insert key k tx r.pending_requests, v.apart k, key_eq_iff key k);
}

on_register-IsSeparated :
    (r : Receiver) (reg : Register) → IsSeparated r → IsSeparated (on_register r reg).0
unfolding on_register
on_register-IsSeparated r (request key tx) v =
    register_request-IsSeparated r key tx (lookup key r.received_messages) refl v
on_register-IsSeparated r (register_consumer id tx) v = record { apart = v.apart }
on_register-IsSeparated r (remove_consumer id) v = record { apart = v.apart }
on_register-IsSeparated r (register_ping tx) v = record { apart = v.apart }

on_response-IsSeparated :
    (r : Receiver) (key : RequestKey) (msg : Message) (o : Option ℕ)
    → lookup key r.pending_requests ≡ o
    → IsSeparated r
    → IsSeparated (on_response r key msg o).0
unfolding on_response
on_response-IsSeparated r key msg (some tx) e v = record {
  apart = λ k. ground (arith, lookup-remove key k r.pending_requests, v.apart k);
}
on_response-IsSeparated r key msg none e v = record {
  apart =
      λ k. ground (arith, lookup-insert key k msg r.received_messages, v.apart k, key_eq_iff key k);
}

on_close-IsSeparated :
    (r : Receiver) (consumer_id id : ℕ) (msg : Message) (o : Option ℕ)
    → IsSeparated r
    → IsSeparated (on_close r consumer_id id msg o).0
unfolding on_close
on_close-IsSeparated r consumer_id id msg (some tx) v = record {
  apart = λ k. ground (arith, lookup-remove (request_id id) k r.pending_requests, v.apart k);
}
on_close-IsSeparated r consumer_id id msg none v = v

on_keyed-IsSeparated :
    (r : Receiver) (msg : Message) (o : Option RequestKey)
    → IsSeparated r
    → IsSeparated (on_keyed r msg o).0
unfolding on_keyed
on_keyed-IsSeparated r msg (some (request_id id)) v =
    on_response-IsSeparated r (request_id id) msg _ refl v
on_keyed-IsSeparated r msg (some (producer_send p s)) v =
    on_response-IsSeparated r (producer_send p s) msg _ refl v
on_keyed-IsSeparated r msg (some (consumer id)) v = v
on_keyed-IsSeparated r msg (some (close_consumer c id)) v =
    on_close-IsSeparated r c id msg (lookup (request_id id) r.pending_requests) v
on_keyed-IsSeparated r msg (some auth_challenge) v = v
on_keyed-IsSeparated r msg none v = v

on_command-IsSeparated :
    (r : Receiver) (msg : Message) (p q : Option Present)
    → IsSeparated r
    → IsSeparated (on_command r msg p q).0
unfolding on_command
on_command-IsSeparated r msg (some p) q v =
    elim (r.control_open)
      as (λ b.
        IsSeparated
          (if◌then◌else◌ {A = Receiver × List Effect} b (r, pong_sent ∷ [])
            (record r { error = some disconnected }, [])).0) [
              | true ↦ v
              | false ↦ record { apart = v.apart }
            ]
on_command-IsSeparated r msg none (some p) v = record { apart = v.apart }
on_command-IsSeparated r msg none none v = on_keyed-IsSeparated r msg (request_key msg.command) v

on_message-IsSeparated :
    (r : Receiver) (msg : Message) → IsSeparated r → IsSeparated (on_message r msg).0
unfolding on_message
on_message-IsSeparated r msg v = on_command-IsSeparated r msg msg.command.ping msg.command.pong v

poll_inbound-IsSeparated :
    (r : Receiver) (inbound : Inbound)
    → IsSeparated r
    → IsSeparated (poll_inbound r inbound).receiver
unfolding poll_inbound
poll_inbound-IsSeparated r (next_message msg rest) v =
    poll_inbound-IsSeparated (on_message r msg).0 rest (on_message-IsSeparated r msg v)
poll_inbound-IsSeparated r waiting v = v
poll_inbound-IsSeparated r inbound_ended v = record { apart = v.apart }
poll_inbound-IsSeparated r (inbound_failed e) v = record { apart = v.apart }

poll_registrations-IsSeparated :
    (r : Receiver) (registrations : Registrations) (inbound : Inbound)
    → IsSeparated r
    → IsSeparated (poll_registrations r registrations inbound).receiver
unfolding poll_registrations
poll_registrations-IsSeparated r (next_register reg rest) inbound v =
    poll_registrations-IsSeparated (on_register r reg).0 rest inbound
      (on_register-IsSeparated r reg v)
poll_registrations-IsSeparated r no_more inbound v = poll_inbound-IsSeparated r inbound v
poll_registrations-IsSeparated r registrations_closed inbound v = record { apart = v.apart }

-- A poll of a receiver keeps its two maps apart: when no key has both a waiting request and a kept
-- message before it, none has after it, whatever registrations and messages the poll takes and
-- however it ends.
pub poll-IsSeparated :
    (r : Receiver) (shutdown : Bool) (registrations : Registrations) (inbound : Inbound)
    → IsSeparated r
    → IsSeparated (poll r shutdown registrations inbound).receiver
unfolding poll
poll-IsSeparated r true registrations inbound v = v
poll-IsSeparated r false registrations inbound v =
    poll_registrations-IsSeparated r registrations inbound v

pub new-IsSeparated : IsSeparated new
unfolding lookup
new-IsSeparated = record { apart = λ k. inl refl }
