-- ===== src/Tests/Sendings.antt =====
-- src/producer.rs: a message that is sent again after the connection is lost.
use pulsar_rdg_rs.Prelude.{
  ℕ, zero, suc, ◌≡◌, refl, true, false, some, List, [], ◌∷◌, ok, err, inl, inr,
}
use pulsar_rdg_rs.Errors.{io, timed_out}
use pulsar_rdg_rs.Producer.Message.{ProducerMessage, default_message}
use pulsar_rdg_rs.Producer.Resending.{Turn, Effect, State, send_message}
use pulsar_rdg_rs.Producer.Resent.{AllSame, send_message-AllLost}

abbrev message : ProducerMessage
message = record default_message { payload = 1 ∷ 2 ∷ [] }

abbrev state : ℕ → State
state conn = record { connection = conn; schema_version = some (conn ∷ []) }

-- A send times out, then the connection is known as broken, and then all is well.
abbrev turns : ℕ → Turn ℕ
turns zero = record {
  is_valid = true;
  sent = err (io timed_out);
  looked_up = ok 1;
  created = (some 21, ok (some (21 ∷ [])));
}
turns (suc zero) = record {
  is_valid = false;
  sent = ok 5;
  looked_up = ok 1;
  created = (some 22, ok (some (22 ∷ [])));
}
turns (suc (suc n)) = record {
  is_valid = true;
  sent = ok 6;
  looked_up = ok 1;
  created = (some 23, ok (some (23 ∷ [])));
}

send_message-AllLost_example :
    (es : List Effect) × AllSame message es
    × (send_message 3 turns message 0 (state 20) ≡ some (es, state 22, ok 6))
send_message-AllLost_example =
    send_message-AllLost message turns 2 0 6 (state 20) (state 22)
      (
        state 21,
        record { lost = inr (refl, inr refl); address = 1; found = refl; created = refl },
        (state 22, record { lost = inl refl; address = 1; found = refl; created = refl }, refl),
      )
      refl refl
