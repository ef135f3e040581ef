-- ===== src/Tests/Multis.antt =====
-- A consumer of several topics at which the theorems about it are applied.
use pulsar_rdg_rs.Prelude.{
  ℕ, ◌+◌, ◌≤◌, ◌≡◌, refl, true, false, none, some, List, [], ◌∷◌, arith, Result, ok, err, length,
}
use pulsar_rdg_rs.Prelude.Maps.{lookup}
use pulsar_rdg_rs.Prelude.Equals.{text_eq}
use pulsar_rdg_rs.Bytes.{Text}
use pulsar_rdg_rs.Partitions.{lookup_partitioned_topic, topics_of}
use pulsar_rdg_rs.Consumer.MidBatch.{unread}
use pulsar_rdg_rs.Consumer.Multi.{Body, Member, MultiTopicConsumer, Update, messages_received}
use pulsar_rdg_rs.Consumer.Multi.Updating.{Answers, created, take_new}
use pulsar_rdg_rs.Consumer.Multi.Polling.{Outcome, poll_topics}
use pulsar_rdg_rs.Consumer.Multi.Running.{Event, arrived, poll, Run, run, only}
use pulsar_rdg_rs.Consumer.Multi.Rotating.{IsValid}
use pulsar_rdg_rs.Consumer.Multi.Fairness.{run-delivers}
use pulsar_rdg_rs.Consumer.Multi.Ordering.{InOrder}
use pulsar_rdg_rs.Consumer.Multi.Lossless.{run-InOrder}
use pulsar_rdg_rs.Consumer.Multi.Tables.{IsUnique}
use pulsar_rdg_rs.Consumer.Multi.Counting.{poll_topics-messages_received}
use pulsar_rdg_rs.Consumer.Multi.Doubled.{count, names, take_new-doubled}
use pulsar_rdg_rs.Tests.Batches.{id}
use pulsar_rdg_rs.Tests.Engines.{consumer, one_payload}
use pulsar_rdg_rs.Tests.Managers.{broker}
use mathlib.Core.List.{Mem}

abbrev pub a : Text
a = 97 ∷ []

abbrev pub b : Text
b = 98 ∷ []

abbrev pub member : List (Result ℕ Body) → Member ℕ
member items = record { consumer = unread consumer; items = items; ended = false }

-- Both topics have a message.
abbrev both : MultiTopicConsumer ℕ
both = record {
  topic_regex = none;
  consumers =
      (a, member (ok (id, one_payload) ∷ [])) ∷ (b, member (ok (id, one_payload) ∷ [])) ∷ [];
  requested_topics = a ∷ b ∷ [];
  existing_topics = a ∷ b ∷ [];
  new_consumers = none;
  disc_messages_received = 0;
  disc_last_message_received = none;
}

both-IsValid : IsValid both
unfolding lookup
both-IsValid t = ground (arith, text_eq.beq_iff a t, text_eq.beq_iff b t)

abbrev started : Run ℕ
started = record { state = both; delivered = []; missing = [] }

-- The first topic fails between two polls.
abbrev pub events : List (Event ℕ)
events = arrived a (err 3) ∷ poll 5 [] none ∷ arrived b (ok (id, one_payload)) ∷ poll 6 [] none ∷ []

run-delivers_example :
    (r : Run ℕ) × (run events started ≡ some r) × Mem (b, id, one_payload) r.delivered
unfolding lookup
run-delivers_example =
    run-delivers ℕ b id one_payload events (a ∷ []) started both-IsValid refl
      record {
        behind = [];
        queue = refl;
        first = refl;
        member = member (ok (id, one_payload) ∷ []);
        more = [];
        found = refl;
        next = refl;
        captured = tt;
      }
      (omega arith)

run-InOrder_example :
    (r : Run ℕ) × (run events started ≡ some r)
    × InOrder ℕ b ((id, one_payload) ∷ (id, one_payload) ∷ []) r
unfolding lookup
run-InOrder_example =
    run-InOrder ℕ b events ((id, one_payload) ∷ []) started (refl, tt) both-IsValid refl
      record {
        member = member (ok (id, one_payload) ∷ []);
        found = refl;
        going = refl;
        flow = refl;
        captured = tt;
      }

poll_topics-messages_received_example :
    (o : Outcome ℕ) × (poll_topics 5 both ≡ some o)
    × (messages_received o.state ≡ messages_received both + length (only o.result))
    × IsUnique o.state.consumers
unfolding lookup
poll_topics-messages_received_example =
    poll_topics-messages_received ℕ 5 both both-IsValid (refl, (refl, tt))

-- The namespace has the requested topic too, and every topic matches.
abbrev pub answers : Answers ℕ
answers = record {
  get_topics_of_namespace = ok (a ∷ []);
  number = λ topic. ok 0;
  lookup_topic = λ topic. ok broker;
  new = λ topic address. ok (member []);
}

abbrev pending_update : Update
pending_update = record {
  topics = a ∷ [];
  topic_regex = some (λ topic. true);
  existing_topics = b ∷ [];
}

abbrev updating : MultiTopicConsumer ℕ
updating = record both { new_consumers = some pending_update }

take_new-doubled_example :
    let two : List (Text × Member ℕ) = (a, member []) ∷ (a, member []) ∷ [] in
    (2 ≤ count a (names two)) × (2 ≤ count a (take_new (some answers) updating).existing_topics)
unfolding created lookup_partitioned_topic topics_of
take_new-doubled_example =
    take_new-doubled ℕ a answers refl (λ topic. true) (a ∷ []) pending_update
      ((a, member []) ∷ (a, member []) ∷ []) updating refl refl refl refl refl refl refl refl
