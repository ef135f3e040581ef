-- ===== src/Tests/Loops.antt =====
-- src/producer.rs: runs of `batch_process_loop`.
use pulsar_rdg_rs.Prelude.{◌≡◌, none, some, List, [], ◌∷◌, ◌++◌}
use pulsar_rdg_rs.Batch.{BatchedMessage}
use pulsar_rdg_rs.Producer.Message.{default_message, to_batched}
use pulsar_rdg_rs.Producer.Batching.{
  BatchItem, single_message, flush, Event, received, closed, timer_fired, run, start,
}
use pulsar_rdg_rs.Producer.Flushing.{sent, items, Left, run-sent}
use pulsar_rdg_rs.Producer.Contents.{AllBatches}
use pulsar_rdg_rs.Producer.Shape.{StillBatching, run-AllBatches, start-IsBatching}

abbrev small : BatchedMessage
small = to_batched (record default_message { payload = 1 ∷ 2 ∷ [] })

abbrev events : List Event
events =
    received (single_message 1 small)
    ∷ received (single_message 2 small)
    ∷ received (single_message 3 small)
    ∷ timer_fired
    ∷ received (flush 4)
    ∷ received (single_message 5 small)
    ∷ closed
    ∷ []

run-sent_example :
    (rest : List BatchItem) × (sent (run (some (start (some 2) none (some 100))) events).1 ++ rest
      ≡ items events)
    × Left
        (run (some (start (some 2) none (some 100))) events).0
        (run (some (start (some 2) none (some 100))) events).1
        rest
run-sent_example = run-sent (start (some 2) none (some 100)) events

run-AllBatches_example :
    AllBatches (some 2) (run (some (start (some 2) none (some 100))) events).1
    × StillBatching (run (some (start (some 2) none (some 100))) events).0
run-AllBatches_example =
    run-AllBatches (start (some 2) none (some 100)) events
      (start-IsBatching (some 2) none (some 100))
