-- ===== src/Consumer/Multi/Keeping.antt =====
-- The topics that stay, with their consumers, while an update ends.
use pulsar_rdg_rs.Prelude.{
  ◌≡◌, refl, ap, ◌∙◌, Option, none, some, Result, ok, err, List, [], ◌∷◌, arith,
}
use pulsar_rdg_rs.Prelude.Maps.{lookup, lookup-insert}
use pulsar_rdg_rs.Prelude.Equals.{text_eq}
use pulsar_rdg_rs.Bytes.{Text}
use pulsar_rdg_rs.Consumer.Multi.{
  Member, MultiTopicConsumer, add_consumer, add_consumers, update_topics, Update,
}
use pulsar_rdg_rs.Consumer.Multi.Updating.{Answers, take_new, created, on_new_consumers, on_future}
use pulsar_rdg_rs.Consumer.Multi.Polling.{prepare}
use pulsar_rdg_rs.Consumer.Multi.Rotating.{present, IsValid}
use pulsar_rdg_rs.Consumer.Multi.Sparing.{AllOther, created-AllOther}
use pulsar_rdg_rs.Consumer.Multi.Present.{on_future-IsValid}
use pulsar_rdg_rs.Consumer.Multi.Serving.{Captures}

module _ (E : Type 0) (t : Text) where
  -- The topic's consumer, and that an update under way knows the topic.
  pub record Has (c : Member E) (m : MultiTopicConsumer E) : Type 0 where
    pub found : lookup t m.consumers ≡ some c
    pub captured : Captures t m.new_consumers

  add_consumers-Has :
      (c : Member E) (cs : List (Text × Member E)) (m : MultiTopicConsumer E)
      → AllOther E t cs
      → Has c m
      → Has c (add_consumers cs m)
  unfolding add_consumers
  add_consumers-Has c [] m o w = w
  add_consumers-Has c ((topic, d) ∷ cs) m o w =
      add_consumers-Has c cs (add_consumer topic d m) o.1 record {
        found = ground (arith, lookup-insert topic t d m.consumers, w.found, o.0);
        captured = w.captured;
      }

  on_new_consumers-Has :
      (c : Member E) (r : Result E (List (Text × Member E))) (m : MultiTopicConsumer E)
      → ((cs : List (Text × Member E)) → r ≡ ok cs → AllOther E t cs)
      → Has c m
      → Has c (on_new_consumers (some r) m)
  on_new_consumers-Has c (ok cs) m o w =
      add_consumers-Has c cs (record m { new_consumers = none }) (o cs refl)
        record { found = w.found; captured = tt }
  on_new_consumers-Has c (err e) m o w = record { found = w.found; captured = tt }

  on_future-Has :
      (c : Member E) (u : Option Update) (a : Option (Answers E)) (m : MultiTopicConsumer E)
      → Captures t u
      → Has c m
      → Has c (on_future u a m)
  on_future-Has c none a m k w = w
  on_future-Has c (some u) none m k w = w
  on_future-Has c (some u) (some a) m k w =
      on_new_consumers-Has c (created a u) m (λ cs h. created-AllOther E t a u cs k h) w

  update_topics-Has :
      (c : Member E) (m : MultiTopicConsumer E) → IsValid m → Has c m → Has c (update_topics m)
  unfolding update_topics
  update_topics-Has c m v w = record { found = w.found; captured = v t ∙ ap present w.found }

  pub prepare-Has :
      (c : Member E) (fired : List (Option (Answers E))) (last : Option (Answers E))
      (m : MultiTopicConsumer E)
      → IsValid m
      → Has c m
      → Has c (prepare fired last m)
  unfolding prepare take_new update_topics
  prepare-Has c [] last m v w = on_future-Has c m.new_consumers last m w.captured w
  prepare-Has c (a ∷ fired) last m v w =
      prepare-Has c fired last (update_topics (take_new a m))
        (on_future-IsValid E m.new_consumers a m v)
        (update_topics-Has c (take_new a m) (on_future-IsValid E m.new_consumers a m v)
          (on_future-Has c m.new_consumers a m w.captured w))
