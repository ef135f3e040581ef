-- ===== src/Connection/Untouched.antt =====
-- What the events of a `Receiver` leave alone: the state of a key that they do not concern.
use pulsar_rdg_rs.Prelude.{
  ℕ, ◌≡◌, inl, inr, refl, ◌∙◌, Bool, true, false, Option, none, some, List, [], ◌∷◌, ◌++◌, arith,
  if◌then◌else◌, Bool-cases,
}
use pulsar_rdg_rs.Prelude.Maps.{lookup, lookup-insert, lookup-remove}
use pulsar_rdg_rs.Proto.{Present}
use pulsar_rdg_rs.Connection.Keys.{
  RequestKey, request_id, producer_send, consumer, close_consumer, auth_challenge, request_key,
  request_key_eq, key_eq,
}
use pulsar_rdg_rs.Connection.{
  Message, Receiver, Register, request, register_consumer, remove_consumer, register_ping, Effect,
  pong_sent, disconnected, register_request, on_register, on_response, on_close, on_keyed,
  on_command, on_message,
}

-- What a receiver does: take a registration or a message.
pub data Event : Type 0 where
  registered : Register → Event
  received : Message → Event

abbrev pub step : Receiver → Event → Receiver × List Effect
step r (registered reg) = on_register r reg
step r (received msg) = on_message r msg

-- Whether a message with this key may touch what is stored under `key`.
abbrev pub may_touch : RequestKey → Option RequestKey → Bool
may_touch key none = false
may_touch key (some (close_consumer consumer_id id)) = key_eq (request_id id) key
may_touch key (some j) = key_eq j key

abbrev pub concerns : RequestKey → Event → Bool
concerns key (registered (request j resolver)) = key_eq j key
concerns key (registered _) = false
concerns key (received msg) = may_touch key (request_key msg.command)

abbrev pub none_concerns : RequestKey → List Event → Bool
none_concerns key [] = true
none_concerns key (e ∷ es) = if concerns key e then false else none_concerns key es

-- The receiver after the events, and their effects.
unfoldable pub run : Receiver → List Event → Receiver × List Effect
run r [] = (r, [])
run r (e ∷ es) = ((run (step r e).0 es).0, (step r e).1 ++ (run (step r e).0 es).1)

pub record Keeps (key : RequestKey) (r s : Receiver) : Type 0 where
  pub pending : lookup key s.pending_requests ≡ lookup key r.pending_requests
  pub received_ : lookup key s.received_messages ≡ lookup key r.received_messages

same : (key : RequestKey) (r : Receiver) → Keeps key r r
same key r = record { pending = refl; received_ = refl }

register_request-Keeps :
    (key j : RequestKey) (r : Receiver) (tx : ℕ) (o : Option Message)
    → key_eq j key ≡ false
    → Keeps key r (register_request r j tx o).0
unfolding register_request
register_request-Keeps key j r tx (some msg) e = record {
  pending = refl;
  received_ = rw (lookup-remove j key r.received_messages, e) refl;
}
register_request-Keeps key j r tx none e = record {
  pending = rw (lookup-insert j key tx r.pending_requests, e) refl;
  received_ = refl;
}

on_register-Keeps :
    (key : RequestKey) (r : Receiver) (reg : Register)
    → concerns key (registered reg) ≡ false
    → Keeps key r (on_register r reg).0
unfolding on_register
on_register-Keeps key r (request j tx) e = register_request-Keeps key j r tx _ e
on_register-Keeps key r (register_consumer id tx) e = record { pending = refl; received_ = refl }
on_register-Keeps key r (remove_consumer id) e = record { pending = refl; received_ = refl }
on_register-Keeps key r (register_ping tx) e = record { pending = refl; received_ = refl }

on_response-Keeps :
    (key j : RequestKey) (r : Receiver) (msg : Message) (o : Option ℕ)
    → key_eq j key ≡ false
    → Keeps key r (on_response r j msg o).0
unfolding on_response
on_response-Keeps key j r msg (some tx) e = record {
  pending = rw (lookup-remove j key r.pending_requests, e) refl;
  received_ = refl;
}
on_response-Keeps key j r msg none e = record {
  pending = refl;
  received_ = rw (lookup-insert j key msg r.received_messages, e) refl;
}

on_close-Keeps :
    (key : RequestKey) (r : Receiver) (consumer_id id : ℕ) (msg : Message) (o : Option ℕ)
    → key_eq (request_id id) key ≡ false
    → Keeps key r (on_close r consumer_id id msg o).0
unfolding on_close
on_close-Keeps key r consumer_id id msg (some tx) e = record {
  pending = rw (lookup-remove (request_id id) key r.pending_requests, e) refl;
  received_ = refl;
}
on_close-Keeps key r consumer_id id msg none e = same key r

on_keyed-Keeps :
    (key : RequestKey) (r : Receiver) (msg : Message) (o : Option RequestKey)
    → may_touch key o ≡ false
    → Keeps key r (on_keyed r msg o).0
unfolding on_keyed
on_keyed-Keeps key r msg (some (request_id id)) e = on_response-Keeps key (request_id id) r msg _ e
on_keyed-Keeps key r msg (some (producer_send p s)) e =
    on_response-Keeps key (producer_send p s) r msg _ e
on_keyed-Keeps key r msg (some (consumer id)) e = same key r
on_keyed-Keeps key r msg (some (close_consumer c id)) e = on_close-Keeps key r c id msg _ e
on_keyed-Keeps key r msg (some auth_challenge) e = same key r
on_keyed-Keeps key r msg none e = same key r

answer_ping-Keeps :
    (key : RequestKey) (r : Receiver) (b : Bool)
    → Keeps key r
        (if◌then◌else◌ {A = Receiver × List Effect} b
          (r, pong_sent ∷ [])
          (record r { error = some disconnected }, [])).0
answer_ping-Keeps key r true = same key r
answer_ping-Keeps key r false = record { pending = refl; received_ = refl }

on_command-Keeps :
    (key : RequestKey) (r : Receiver) (msg : Message) (p q : Option Present)
    → may_touch key (request_key msg.command) ≡ false
    → Keeps key r (on_command r msg p q).0
unfolding on_command
on_command-Keeps key r msg (some p) q e = answer_ping-Keeps key r r.control_open
on_command-Keeps key r msg none (some p) e = record { pending = refl; received_ = refl }
on_command-Keeps key r msg none none e = on_keyed-Keeps key r msg _ e

step-Keeps :
    (key : RequestKey) (r : Receiver) (e : Event)
    → concerns key e ≡ false
    → Keeps key r (step r e).0
unfolding on_message
step-Keeps key r (registered reg) h = on_register-Keeps key r reg h
step-Keeps key r (received msg) h = on_command-Keeps key r msg msg.command.ping msg.command.pong h

pub run-Keeps :
    (key : RequestKey) (r : Receiver) (es : List Event)
    → none_concerns key es ≡ true
    → Keeps key r (run r es).0
unfolding run
run-Keeps key r [] h = same key r
run-Keeps key r (e ∷ es) h = elim (Bool-cases (concerns key e)) [
  | inl c ↦ absurd (ground arith)
  | inr c ↦
      let later = run-Keeps key (step r e).0 es (ground arith) in
      record {
        pending = later.pending ∙ (step-Keeps key r e c).pending;
        received_ = later.received_ ∙ (step-Keeps key r e c).received_;
      }
]
