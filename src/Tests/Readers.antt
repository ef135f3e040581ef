-- ===== src/Tests/Readers.antt =====
-- A reader at which the theorems about it are applied.
use pulsar_rdg_rs.Prelude.{ℕ, false, ◌≡◌, refl, ok, some, List, [], ◌∷◌}
use pulsar_rdg_rs.Consumer.MidBatch.{unread}
use pulsar_rdg_rs.Consumer.Multi.{Member}
use pulsar_rdg_rs.Reader.{
  polling_consumer, waiting, sent, refused, reader_of, Event, arrived, gone, poll, Run, run,
}
use pulsar_rdg_rs.Reader.Acked.{IsSound, run-IsSound}
use pulsar_rdg_rs.Reader.Ordering.{InOrder, run-InOrder_reader}
use pulsar_rdg_rs.Tests.Batches.{id}
use pulsar_rdg_rs.Tests.Engines.{consumer, one_payload}

abbrev one_message : Member ℕ
one_message = record {
  consumer = unread consumer;
  items = ok (id, one_payload) ∷ [];
  ended = false;
}

abbrev started : Run ℕ
started = record { reader = reader_of one_message polling_consumer; returned = []; acked = [] }

-- The first acknowledgement is refused, and the engine ends behind a second message.
abbrev failing : List (Event ℕ)
failing =
    poll 5 waiting
    ∷ poll 6 refused
    ∷ arrived (ok (id, one_payload))
    ∷ gone
    ∷ poll 7 sent
    ∷ poll 8 sent
    ∷ []

run-IsSound_example : (r : Run ℕ) × (run failing started ≡ some r) × IsSound ℕ r
run-IsSound_example =
    run-IsSound ℕ failing started record { state = polling_consumer; here = refl; acks = refl }

abbrev delayed : List (Event ℕ)
delayed = poll 5 waiting ∷ arrived (ok (id, one_payload)) ∷ poll 6 sent ∷ poll 7 waiting ∷ []

run-InOrder_reader_example :
    (r : Run ℕ) × (run delayed started ≡ some r)
    × InOrder ℕ ((id, one_payload) ∷ (id, one_payload) ∷ []) r
run-InOrder_reader_example =
    run-InOrder_reader ℕ delayed ((id, one_payload) ∷ []) started tt
      record { state = polling_consumer; here = refl; going = refl; flow = refl }
