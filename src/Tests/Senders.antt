-- ===== src/Tests/Senders.antt =====
-- Requests of a connection's sender at which the theorems about it are applied.
use pulsar_rdg_rs.Prelude.{◌≡◌, refl, true, false, none, some, List, [], ◌∷◌, ok, err}
use pulsar_rdg_rs.Prelude.Int.{pos}
use pulsar_rdg_rs.Prelude.Maps.{lookup}
use pulsar_rdg_rs.Errors.{pulsar_error, server_error, slow_down}
use pulsar_rdg_rs.Proto.{Requested, CommandError, default_command}
use pulsar_rdg_rs.Connection.{Message, new, request, resolve, on_register}
use pulsar_rdg_rs.Connection.Keys.{
  request_id, producer_send, auth_challenge, request_key, request_key_eq,
}
use pulsar_rdg_rs.Connection.Untouched.{Event, registered, received, step, run}
use pulsar_rdg_rs.Connection.Rendezvous.{after}
use pulsar_rdg_rs.Connection.Sender
use pulsar_rdg_rs.Connection.Sender.{
  Channels, Begun, begun, refused, control, call, send, answered, on_reply, extract, subscribe,
}
use pulsar_rdg_rs.Connection.Stale.{messages, send-stale, auth_challenge-unanswered}
use pulsar_rdg_rs.Connection.Answers.{
  reply, error_reply, command_of, announced, taken, requested, call-answered,
}

-- A data channel of one message, which is full.
abbrev full : Channels
full = record {
  registrations = [];
  registrations_open = true;
  control_queue = [];
  control_open = true;
  data_queue = command_of (default_command (pos 6)) ∷ [];
  data_open = true;
  capacity = 1;
  error = none;
  supports_without_auto_creation = false;
}

-- Another send goes on in between.
abbrev another : List Event
another =
    registered (request (producer_send 1 6) 31)
    ∷ received (command_of (default_command (pos 18)))
    ∷ []

abbrev out : Message
out = command_of (default_command (pos 6))

send-stale_example :
    (send 1 5 30 out false full
      ≡ (Sender.registered (producer_send 1 5) 30 full, refused slow_down))
    × (lookup
          (producer_send 1 5)
          (run (on_register new (request (producer_send 1 5) 30)).0 another).0.pending_requests
        ≡ some 30)
unfolding lookup request_key
send-stale_example = send-stale 1 5 30 out full new another refl refl refl refl refl

auth_challenge-unanswered_example :
    lookup auth_challenge
      (messages
        (on_register new (request auth_challenge 30)).0
        (command_of (default_command (pos 13)) ∷ [])).pending_requests
    ≡ some 30
unfolding lookup
auth_challenge-unanswered_example =
    auth_challenge-unanswered 30 new (command_of (default_command (pos 13)) ∷ []) refl

abbrev question : Requested
question = record { request_id = 7 }

abbrev failure : CommandError
failure = record { request_id = 7; error = pos 6; message = [] }

call-answered_example :
    let rpc = subscribe 3 90 in
    let good = command_of (reply rpc (pos 13) question) in
    let bad = command_of (error_reply (pos 13) failure) in
    let c = requested rpc (request_id 7) 30 out full in
    let waiting =
      after (run new (taken (announced rpc))).0 (registered (request (request_id 7) 30)) another in
    (call [] rpc (request_id 7) 30 out full ≡ (c, begun))
    × ((step waiting (received good)).1 ≡ resolve 30 good ∷ [])
    × (lookup (request_id 7) (step waiting (received good)).0.pending_requests ≡ none)
    × (on_reply (λ b. []) (extract rpc) (answered good) c ≡ (c, ok question))
    × ((step waiting (received bad)).1 ≡ resolve 30 bad ∷ [])
    × (on_reply (λ b. []) (extract rpc) (answered bad) c
        ≡ (c, err (pulsar_error (server_error (pos 6)) (some []))))
unfolding lookup request_key
call-answered_example =
    call-answered (subscribe 3 90) [] (λ b. []) (pos 13) question failure 30 out full new another
      refl refl tt refl refl refl
