-- ===== src/Connection/Rendezvous.antt =====
-- A request and its answer meet in a `Receiver` whichever of them comes first.
use pulsar_rdg_rs.Prelude.{
  ℕ, ◌≡◌, refl, ap, ◌∙◌, Bool, true, false, Option, none, some, List, [], ◌∷◌,
}
use pulsar_rdg_rs.Prelude.Maps.{lookup, lookup-insert, lookup-remove, beq_refl}
use pulsar_rdg_rs.Proto.{Present}
use pulsar_rdg_rs.Connection.Keys.{
  RequestKey, request_id, producer_send, consumer, close_consumer, auth_challenge, request_key,
  request_key_eq,
}
use pulsar_rdg_rs.Connection.{
  Message, Receiver, request, resolve, register_request, on_register, on_response, on_keyed,
  on_command, on_message,
}
use pulsar_rdg_rs.Connection.Untouched.{
  Event, registered, received, step, none_concerns, run, run-Keeps,
}

pub record IsPlain (msg : Message) : Type 0 where
  pub no_ping : msg.command.ping ≡ none
  pub no_pong : msg.command.pong ≡ none

-- A key that answers are matched by.
abbrev pub is_matched : RequestKey → Bool
is_matched (request_id id) = true
is_matched (producer_send producer_id sequence_id) = true
is_matched _ = false

-- An answer for `key`.
pub record IsAnswer (key : RequestKey) (msg : Message) : Type 0 where
  pub plain : IsPlain msg
  pub matched : is_matched key ≡ true
  pub keyed : request_key msg.command ≡ some key

on_keyed-matched :
    (key : RequestKey) (r : Receiver) (msg : Message)
    → is_matched key ≡ true
    → on_keyed r msg (some key) ≡ on_response r key msg (lookup key r.pending_requests)
unfolding on_keyed
on_keyed-matched (request_id id) r msg e = refl
on_keyed-matched (producer_send p s) r msg e = refl
on_keyed-matched (consumer id) r msg e = cc
on_keyed-matched (close_consumer c id) r msg e = cc
on_keyed-matched auth_challenge r msg e = cc

on_command-matched :
    (key : RequestKey) (r : Receiver) (msg : Message) (p q : Option Present)
    → p ≡ none
    → q ≡ none
    → is_matched key ≡ true
    → request_key msg.command ≡ some key
    → on_command r msg p q ≡ on_response r key msg (lookup key r.pending_requests)
unfolding on_command
on_command-matched key r msg (some p) q ep eq m k = cc
on_command-matched key r msg none (some q) ep eq m k = cc
on_command-matched key r msg none none ep eq m k =
    ap (on_keyed r msg) k ∙ on_keyed-matched key r msg m

on_message-IsAnswer :
    (key : RequestKey) (r : Receiver) (msg : Message)
    → IsAnswer key msg
    → on_message r msg ≡ on_response r key msg (lookup key r.pending_requests)
unfolding on_message
on_message-IsAnswer key r msg a =
    on_command-matched key r msg _ _ a.plain.no_ping a.plain.no_pong a.matched a.keyed

abbrev pub after : Receiver → Event → List Event → Receiver
after r e es = (run (step r e).0 es).0

waiting-lookup :
    (key : RequestKey) (tx : ℕ) (r : Receiver) (o : Option Message)
    → o ≡ none
    → lookup key (register_request r key tx o).0.pending_requests ≡ some tx
unfolding register_request
waiting-lookup key tx r (some msg) e = cc
waiting-lookup key tx r none e = rw (lookup-insert key key tx r.pending_requests, beq_refl key) refl

kept-lookup :
    (key : RequestKey) (msg : Message) (r : Receiver) (o : Option ℕ)
    → o ≡ none
    → lookup key (on_response r key msg o).0.received_messages ≡ some msg
unfolding on_response
kept-lookup key msg r (some tx) e = cc
kept-lookup key msg r none e = rw (lookup-insert key key msg r.received_messages, beq_refl key) refl

on_response-waiting :
    (key : RequestKey) (tx : ℕ) (msg : Message) (r : Receiver) (o : Option ℕ)
    → o ≡ some tx
    → let s = on_response r key msg o in
      (s.1 ≡ resolve tx msg ∷ []) × (lookup key s.0.pending_requests ≡ none)
unfolding on_response
on_response-waiting key tx msg r none e = cc
on_response-waiting key tx msg r (some t) e =
    (cc, rw (lookup-remove key key r.pending_requests, beq_refl key) refl)

register_request-kept :
    (key : RequestKey) (tx : ℕ) (msg : Message) (r : Receiver) (o : Option Message)
    → o ≡ some msg
    → let s = register_request r key tx o in
      (s.1 ≡ resolve tx msg ∷ []) × (lookup key s.0.received_messages ≡ none)
unfolding register_request
register_request-kept key tx msg r none e = cc
register_request-kept key tx msg r (some m) e =
    (cc, rw (lookup-remove key key r.received_messages, beq_refl key) refl)

-- A request that is registered before its answer comes: when no message of its key is kept, and
-- what happens in between does not concern the key, then the answer goes to the request's sender,
-- that step has no other effect, and the key waits no more.
pub step-answer :
    (key : RequestKey) (tx : ℕ) (msg : Message) (r : Receiver) (es : List Event)
    → IsAnswer key msg
    → lookup key r.received_messages ≡ none
    → none_concerns key es ≡ true
    → let s = step (after r (registered (request key tx)) es) (received msg) in
      (s.1 ≡ resolve tx msg ∷ []) × (lookup key s.0.pending_requests ≡ none)
unfolding on_register
step-answer key tx msg r es a free quiet =
    let s = after r (registered (request key tx)) es in
    rw (on_message-IsAnswer key s msg a) (
      on_response-waiting key tx msg s (lookup key s.pending_requests) (
        (run-Keeps key (on_register r (request key tx)).0 es quiet).pending
        ∙ waiting-lookup key tx r (lookup key r.received_messages) free))

-- An answer that comes before its request is registered: when no request of its key waits, and what
-- happens in between does not concern the key, then the registration gives the kept answer to the
-- request's sender at once, has no other effect, and the answer is kept no more.
pub step-request :
    (key : RequestKey) (tx : ℕ) (msg : Message) (r : Receiver) (es : List Event)
    → IsAnswer key msg
    → lookup key r.pending_requests ≡ none
    → none_concerns key es ≡ true
    → let s = step (after r (received msg) es) (registered (request key tx)) in
      (s.1 ≡ resolve tx msg ∷ []) × (lookup key s.0.received_messages ≡ none)
unfolding on_register
step-request key tx msg r es a free quiet =
    let s = after r (received msg) es in
    register_request-kept key tx msg s (lookup key s.received_messages) (
      (run-Keeps key (on_message r msg).0 es quiet).received_
      ∙ rw (on_message-IsAnswer key r msg a)
          (kept-lookup key msg r (lookup key r.pending_requests) free))
