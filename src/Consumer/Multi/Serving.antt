-- ===== src/Consumer/Multi/Serving.antt =====
-- A topic with a message keeps its place in the queue while topics are added and messages arrive.
use pulsar_rdg_rs.Prelude.{
  ◌≡◌, refl, sym, ap, ◌∙◌, true, false, Option, none, some, Result, ok, err, List, [], ◌∷◌, ◌++◌,
  arith, Bool-cases, inl, inr,
}
use pulsar_rdg_rs.Prelude.Maps.{beq_refl, lookup, lookup-insert}
use pulsar_rdg_rs.Prelude.Equals.{text_eq}
use pulsar_rdg_rs.Prelude.Members.{contains, contains-append}
use pulsar_rdg_rs.Bytes.{Text}
use pulsar_rdg_rs.Proto.{MessageIdData, MessageMetadata}
use pulsar_rdg_rs.Codec.{Payload}
use mathlib.Core.List.{append_assoc}
use pulsar_rdg_rs.Consumer.Multi.{
  Member, MultiTopicConsumer, Item, add_consumer, add_consumers, update_topics, Update,
}
use pulsar_rdg_rs.Consumer.Multi.Updating.{Answers, take_new, created, on_new_consumers, on_future}
use pulsar_rdg_rs.Consumer.Multi.Polling.{prepare}
use pulsar_rdg_rs.Consumer.Multi.Running.{change}
use pulsar_rdg_rs.Consumer.Multi.Sparing.{AllOther, created-AllOther}

-- The update that is under way knows the topic.
abbrev pub Captures : Text → Option Update → Type 0
Captures t none = Unit
Captures t (some u) = contains t u.existing_topics ≡ true

module _ (E : Type 0) (t : Text) (id : MessageIdData) (p : Payload MessageMetadata) where
  -- The topic stands in the queue behind `ahead`, and its channel begins with the message.
  pub record IsNext (ahead : List Text) (m : MultiTopicConsumer E) : Type 0 where
    pub behind : List Text
    pub queue : m.existing_topics ≡ ahead ++ t ∷ behind
    pub first : contains t ahead ≡ false
    pub member : Member E
    pub more : List (Item E)
    pub found : lookup t m.consumers ≡ some member
    pub next : member.items ≡ ok (id, p) ∷ more
    pub captured : Captures t m.new_consumers

  IsNext-contains :
      (ahead : List Text) (m : MultiTopicConsumer E)
      → IsNext ahead m
      → contains t m.existing_topics ≡ true
  IsNext-contains ahead m w =
      ground (
        arith,
        w.queue,
        contains-append t ahead (t ∷ w.behind),
        beq_refl t,
        ap (contains t) w.queue,
      )

  add_consumers-IsNext :
      (ahead : List Text) (cs : List (Text × Member E)) (m : MultiTopicConsumer E)
      → AllOther E t cs
      → IsNext ahead m
      → IsNext ahead (add_consumers cs m)
  unfolding add_consumers
  add_consumers-IsNext ahead [] m o w = w
  add_consumers-IsNext ahead ((topic, c) ∷ cs) m o w =
      add_consumers-IsNext ahead cs (add_consumer topic c m) o.1 record {
        behind = w.behind ++ topic ∷ [];
        queue =
            ap (λ (queue : List Text). queue ++ topic ∷ []) w.queue
            ∙ append_assoc ahead (t ∷ w.behind) (topic ∷ []);
        first = w.first;
        member = w.member;
        more = w.more;
        found = ground (arith, lookup-insert topic t c m.consumers, w.found, o.0);
        next = w.next;
        captured = w.captured;
      }

  IsNext-cleared :
      (ahead : List Text) (m : MultiTopicConsumer E)
      → IsNext ahead m
      → IsNext ahead (record m { new_consumers = none })
  IsNext-cleared ahead m w = record {
    behind = w.behind;
    queue = w.queue;
    first = w.first;
    member = w.member;
    more = w.more;
    found = w.found;
    next = w.next;
    captured = tt;
  }

  update_topics-IsNext :
      (ahead : List Text) (m : MultiTopicConsumer E)
      → IsNext ahead m
      → IsNext ahead (update_topics m)
  unfolding update_topics
  update_topics-IsNext ahead m w = record {
    behind = w.behind;
    queue = w.queue;
    first = w.first;
    member = w.member;
    more = w.more;
    found = w.found;
    next = w.next;
    captured = IsNext-contains ahead m w;
  }

  on_new_consumers-IsNext :
      (ahead : List Text) (r : Result E (List (Text × Member E))) (m : MultiTopicConsumer E)
      → ((cs : List (Text × Member E)) → r ≡ ok cs → AllOther E t cs)
      → IsNext ahead m
      → IsNext ahead (on_new_consumers (some r) m)
  on_new_consumers-IsNext ahead (ok cs) m o w =
      add_consumers-IsNext ahead cs (record m { new_consumers = none }) (o cs refl)
        (IsNext-cleared ahead m w)
  on_new_consumers-IsNext ahead (err e) m o w = IsNext-cleared ahead m w

  on_future-IsNext :
      (ahead : List Text) (u : Option Update) (a : Option (Answers E)) (m : MultiTopicConsumer E)
      → Captures t u
      → IsNext ahead m
      → IsNext ahead (on_future u a m)
  on_future-IsNext ahead none a m k w = w
  on_future-IsNext ahead (some u) none m k w = w
  on_future-IsNext ahead (some u) (some a) m k w =
      on_new_consumers-IsNext ahead (created a u) m (λ cs h. created-AllOther E t a u cs k h) w

  pub prepare-IsNext :
      (ahead : List Text) (fired : List (Option (Answers E))) (last : Option (Answers E))
      (m : MultiTopicConsumer E)
      → IsNext ahead m
      → IsNext ahead (prepare fired last m)
  unfolding prepare take_new
  prepare-IsNext ahead [] last m w = on_future-IsNext ahead m.new_consumers last m w.captured w
  prepare-IsNext ahead (a ∷ fired) last m w =
      prepare-IsNext ahead fired last (update_topics (take_new a m)) (
        update_topics-IsNext ahead (take_new a m)
          (on_future-IsNext ahead m.new_consumers a m w.captured w))

  pub change-IsNext :
      (ahead : List Text) (topic : Text) (f : Member E → Member E) (o : Option (Member E))
      (m : MultiTopicConsumer E)
      → ((c : Member E) (more : List (Item E))
          → c.items ≡ ok (id, p) ∷ more
          → (more' : List (Item E)) × ((f c).items ≡ ok (id, p) ∷ more'))
      → lookup topic m.consumers ≡ o
      → IsNext ahead m
      → IsNext ahead (change topic f o m)
  change-IsNext ahead topic f none m g h w = w
  change-IsNext ahead topic f (some c) m g h w = elim (Bool-cases (text_eq.beq topic t)) [
    | inl here ↦
        let same : some c ≡ some w.member =
          sym h ∙ (ap (λ u. lookup u m.consumers) ((text_eq.beq_iff topic t).0 here) ∙ w.found) in
        let (more', next') = g c w.more (cc (same, w.next)) in
        record {
          behind = w.behind;
          queue = w.queue;
          first = w.first;
          member = f c;
          more = more';
          found = lookup-insert topic t (f c) m.consumers ∙ rw here refl;
          next = next';
          captured = w.captured;
        }
    | inr there ↦ record {
      behind = w.behind;
      queue = w.queue;
      first = w.first;
      member = w.member;
      more = w.more;
      found = lookup-insert topic t (f c) m.consumers ∙ rw there w.found;
      next = w.next;
      captured = w.captured;
    }
  ]
