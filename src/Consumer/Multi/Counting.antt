-- ===== src/Consumer/Multi/Counting.antt =====
-- The counts of `MultiTopicConsumer` survive the removal of consumers, and a poll counts what it
-- hands over.
use pulsar_rdg_rs.Prelude.{
  continued, ◌+◌, ℕ, ◌≡◌, refl, sym, ap, ◌∙◌, Bool, true, false, Option, none, some, ok, err, List,
  [], ◌∷◌, arith, length,
}
use pulsar_rdg_rs.Prelude.Maps.{Map, remove, lookup, insert}
use pulsar_rdg_rs.Prelude.Equals.{text_eq}
use pulsar_rdg_rs.Prelude.Members.{without}
use pulsar_rdg_rs.Bytes.{Text}
use pulsar_rdg_rs.Consumer.Topic
use pulsar_rdg_rs.Consumer.Topic.{Polled, pending, closed, message, failed}
use pulsar_rdg_rs.Consumer.Multi.{
  Delivered, Member, MultiTopicConsumer, Item, Delivered, poll_member, polled, front,
  received_total, messages_received, max_option, last_of, last_message_received, on_removed,
  remove_each, remove_consumers,
}
use pulsar_rdg_rs.Consumer.Multi.Polling.{
  Rotation, on_polled, push_back_topic, start, on_rotated, poll_topics, Outcome,
}
use pulsar_rdg_rs.Consumer.Multi.Running.{only}
use pulsar_rdg_rs.Consumer.Multi.Rotating.{
  rotate-keeps, started, served, on_polled-consumers, IsValid,
}
use pulsar_rdg_rs.Consumer.Multi.Tables.{
  IsUnique, count_of, last_at, remove-IsUnique, insert-IsUnique, received_total-remove,
  max_option_comm, last_of-remove,
}

module _ (E : Type 0) where
  on_removed-stats :
      (topic : Text) (o : Option (Member E)) (m : MultiTopicConsumer E)
      → lookup topic m.consumers ≡ o
      → IsUnique m.consumers
      → (messages_received (on_removed topic o m) ≡ messages_received m)
        × (last_message_received (on_removed topic o m) ≡ last_message_received m)
        × IsUnique (on_removed topic o m).consumers
  unfolding on_removed messages_received last_message_received
  on_removed-stats topic none m h u = (refl, refl, u)
  on_removed-stats topic (some c) m h u = (
    omega (arith, received_total-remove E topic m.consumers u, ap (count_of E) h),
    ap (last_of (remove topic m.consumers))
          (max_option_comm E m.disc_last_message_received c.consumer.last_message_received)
        ∙ (ap
              (λ o.
                last_of (remove topic m.consumers)
                  (max_option (last_at E o) m.disc_last_message_received))
              (sym h)
            ∙ last_of-remove E topic m.consumers m.disc_last_message_received u),
    remove-IsUnique E topic m.consumers u,
  )

  remove_each-stats :
      (topics : List Text) (m : MultiTopicConsumer E)
      → IsUnique m.consumers
      → (messages_received (remove_each topics m) ≡ messages_received m)
        × (last_message_received (remove_each topics m) ≡ last_message_received m)
        × IsUnique (remove_each topics m).consumers
  unfolding remove_each
  remove_each-stats [] m u = (refl, refl, u)
  remove_each-stats (topic ∷ topics) m u =
      let (count, last, u') = on_removed-stats topic (lookup topic m.consumers) m refl u in
      let (count', last', u'') =
        remove_each-stats topics (on_removed topic (lookup topic m.consumers) m) u' in
      (count' ∙ count, last' ∙ last, u'')

  -- What the rotation has counted is what it had counted before, and one more if it hands something
  -- over.
  Counts : ℕ → Rotation E → Type 0
  Counts n r = (received_total r.consumers ≡ n + length (only r.result)) × IsUnique r.consumers

  poll_member-count :
      (now : ℕ) (topic : Text) (c : Member E) (r : Rotation E)
      → r.result ≡ none
      → (poll_member now c).consumer.messages_received
        ≡ c.consumer.messages_received + length (only (on_polled topic (polled c) r).result)
  unfolding poll_member polled on_polled Topic.poll_next
  poll_member-count now topic c r n = counted c.items c.ended
    where
      counted :
          (items : List (Item E)) (over : Bool)
          → (Topic.poll_next c.consumer now (front items over)).messages_received
            ≡ c.consumer.messages_received
              + length (only (on_polled topic (front items over) r).result)
      counted [] true = rw n omega arith
      counted [] false = rw n omega arith
      counted (ok (id, p) ∷ items) over = refl
      counted (err e ∷ items) over = rw n omega arith

  received_total-insert :
      (topic : Text) (c d : Member E) (cs : Map Text (Member E))
      → IsUnique cs
      → lookup topic cs ≡ some c
      → received_total (insert topic d cs) + c.consumer.messages_received
        ≡ received_total cs + d.consumer.messages_received
  unfolding insert
  received_total-insert topic c d cs u h =
      omega (arith, received_total-remove E topic cs u, ap (count_of E) h)

  served-Counts :
      (now n : ℕ) (r : Rotation E) (topic : Text) (topics : List Text) (c : Member E)
      → r.result ≡ none
      → lookup topic r.consumers ≡ some c
      → Counts n r
      → Counts n (served E now topic topics c r)
  unfolding Counts push_back_topic
  served-Counts now n r topic topics c e h (total, u) =
      let s : Rotation E = started E now topic topics c r in
      rw (on_polled-consumers E topic (polled c) s) (
        omega (
          arith,
          total,
          ap (λ (d : Option Delivered). length (only d)) e,
          poll_member-count now topic c s e,
          received_total-insert topic c (poll_member now c) r.consumers u h,
        ),
        insert-IsUnique E topic (poll_member now c) r.consumers u,
      )

  -- Where no topic has two consumers in the table and the queue holds exactly the topics with one:
  -- a poll of the topics counts one message more if it hands one over and none otherwise, although
  -- it forgets the consumers that failed or ended, and still no topic has two consumers.
  pub poll_topics-messages_received :
      (now : ℕ) (m : MultiTopicConsumer E)
      → IsValid m
      → IsUnique m.consumers
      → (o : Outcome E) × (poll_topics now m ≡ some o)
        × (messages_received o.state ≡ messages_received m + length (only o.result))
        × IsUnique o.state.consumers
  unfolding poll_topics on_rotated remove_consumers messages_received Counts
  poll_topics-messages_received now m v u =
      let (r, done, k) =
        rotate-keeps E (Counts (received_total m.consumers)) now (length m.existing_topics)
          (λ r topic topics c n q found k.
            served-Counts now (received_total m.consumers) r topic topics c n found k)
          (start m) v (omega arith) (omega arith, u) in
      let m' : MultiTopicConsumer E = record m {
        consumers = r.consumers;
        existing_topics = without r.topics_to_remove r.existing_topics;
      } in
      let (count, last, u') = remove_each-stats r.topics_to_remove m' k.1 in
      (
        on_rotated m r,
        ap (continued (λ r. some (on_rotated m r))) done,
        omega (arith, count, k.0),
        u',
      )

  -- Where no topic has two consumers, the removal of some of them changes neither the number of
  -- messages received nor the time of the last one.
  pub remove_consumers-stats :
      (topics : List Text) (m : MultiTopicConsumer E)
      → IsUnique m.consumers
      → (messages_received (remove_consumers topics m) ≡ messages_received m)
        × (last_message_received (remove_consumers topics m) ≡ last_message_received m)
  unfolding remove_consumers messages_received last_message_received
  remove_consumers-stats topics m u =
      let (count, last, u') =
        remove_each-stats topics (record m { existing_topics = without topics m.existing_topics })
          u in
      (count, last)
