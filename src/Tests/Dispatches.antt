-- ===== src/Tests/Dispatches.antt =====
-- src/connection.rs: runs of a `Receiver`.
use pulsar_rdg_rs.Prelude.{ℕ, ◌≡◌, refl, none, some, List, [], ◌∷◌}
use pulsar_rdg_rs.Prelude.Maps.{lookup}
use pulsar_rdg_rs.Proto.{default_command}
use pulsar_rdg_rs.Prelude.Int.{pos}
use pulsar_rdg_rs.Connection.{Message, new, request, resolve}
use pulsar_rdg_rs.Connection.Keys.{request_key, request_key_eq, request_id}
use pulsar_rdg_rs.Connection.Untouched.{Event, registered, received, step}
use pulsar_rdg_rs.Connection.Rendezvous.{after, IsAnswer, step-answer, step-request}

-- The broker's answer to the request of this number.
abbrev answer : ℕ → Message
answer n = record {
  command = record (default_command (pos 13)) { success = some (record { request_id = n }) };
  payload = none;
}

answer-IsAnswer : (n : ℕ) → IsAnswer (request_id n) (answer n)
unfolding request_key
answer-IsAnswer n = record {
  plain = record { no_ping = refl; no_pong = refl };
  matched = refl;
  keyed = refl;
}

-- What another request does in between.
abbrev other : List Event
other = registered (request (request_id 8) 31) ∷ received (answer 9) ∷ received (answer 8) ∷ []

step-answer_example :
    let s = step (after new (registered (request (request_id 7) 30)) other) (received (answer 7)) in
    (s.1 ≡ resolve 30 (answer 7) ∷ []) × (lookup (request_id 7) s.0.pending_requests ≡ none)
unfolding request_key lookup
step-answer_example =
    step-answer (request_id 7) 30 (answer 7) new other (answer-IsAnswer 7) refl refl

step-request_example :
    let s = step (after new (received (answer 7)) other) (registered (request (request_id 7) 30)) in
    (s.1 ≡ resolve 30 (answer 7) ∷ []) × (lookup (request_id 7) s.0.received_messages ≡ none)
unfolding request_key lookup
step-request_example =
    step-request (request_id 7) 30 (answer 7) new other (answer-IsAnswer 7) refl refl
