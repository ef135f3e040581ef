-- ===== src/Consumer/Multi/Present.antt =====
-- The topics that a `MultiTopicConsumer` polls are those that it has consumers for.
use pulsar_rdg_rs.Prelude.{
  continued, ℕ, ◌≡◌, refl, ap, ◌∙◌, Option, none, some, Result, ok, err, List, [], ◌∷◌, ◌++◌, arith,
  length,
}
use pulsar_rdg_rs.Prelude.Maps.{lookup, lookup-insert}
use pulsar_rdg_rs.Prelude.Equals.{text_eq}
use pulsar_rdg_rs.Bytes.{Text}
use pulsar_rdg_rs.Consumer.Multi.{Member, MultiTopicConsumer, update_topics, Update}
use pulsar_rdg_rs.Consumer.Multi.Updating.{Answers, take_new, created, on_new_consumers, on_future}
use pulsar_rdg_rs.Consumer.Multi.Polling.{
  start, on_rotated, poll_topics, prepare, Outcome, poll_next,
}
use pulsar_rdg_rs.Consumer.Multi.Running.{
  Event, arrived, ended, poll, Run, step, run, change, changed, put_item, end_channel, only,
  on_outcome,
}
use pulsar_rdg_rs.Consumer.Multi.Rotating.{IsValid, rotate-IsRotating}
use pulsar_rdg_rs.Consumer.Multi.Removing.{remove_consumers-IsValid, add_consumers-IsValid}

module _ (E : Type 0) where
  on_new_consumers-IsValid :
      (r : Option (Result E (List (Text × Member E)))) (m : MultiTopicConsumer E)
      → IsValid m
      → IsValid (on_new_consumers r m)
  on_new_consumers-IsValid none m v = v
  on_new_consumers-IsValid (some (ok cs)) m v =
      add_consumers-IsValid E cs (record m { new_consumers = none }) v
  on_new_consumers-IsValid (some (err e)) m v = v

  pub on_future-IsValid :
      (u : Option Update) (a : Option (Answers E)) (m : MultiTopicConsumer E)
      → IsValid m
      → IsValid (on_future u a m)
  on_future-IsValid none a m v = v
  on_future-IsValid (some u) none m v = v
  on_future-IsValid (some u) (some a) m v = on_new_consumers-IsValid (some (created a u)) m v

  pub prepare-IsValid :
      (fired : List (Option (Answers E))) (last : Option (Answers E)) (m : MultiTopicConsumer E)
      → IsValid m
      → IsValid (prepare fired last m)
  unfolding prepare take_new update_topics
  prepare-IsValid [] last m v = on_future-IsValid m.new_consumers last m v
  prepare-IsValid (a ∷ fired) last m v =
      prepare-IsValid fired last (update_topics (take_new a m))
        (on_future-IsValid m.new_consumers a m v)

  -- A poll that ends without a panic and reports no topic, and leaves a valid state.
  abbrev Polls : Option (Outcome E) → Type 0
  Polls o = (r : Outcome E) × (o ≡ some r) × IsValid r.state × (r.missing ≡ [])

  poll_topics-IsValid : (now : ℕ) (m : MultiTopicConsumer E) → IsValid m → Polls (poll_topics now m)
  unfolding poll_topics on_rotated
  poll_topics-IsValid now m v =
      let (r, done, v', unreported) =
        rotate-IsRotating E now (length m.existing_topics) (start m) v (omega arith) refl in
      (
        on_rotated m r,
        ap (continued (λ r. some (on_rotated m r))) done,
        remove_consumers-IsValid E r.topics_to_remove
            (record m { consumers = r.consumers; existing_topics = r.existing_topics }) v',
        unreported,
      )

  pub change-IsValid :
      (topic : Text) (f : Member E → Member E) (o : Option (Member E)) (m : MultiTopicConsumer E)
      → lookup topic m.consumers ≡ o
      → IsValid m
      → IsValid (change topic f o m)
  change-IsValid topic f none m h v t = v t
  change-IsValid topic f (some c) m h v t =
      ground (arith, v t, lookup-insert topic t (f c) m.consumers, text_eq.beq_iff topic t)

  abbrev pub Runs : Option (Run E) → Type 0
  Runs o = (r : Run E) × (o ≡ some r) × IsValid r.state × (r.missing ≡ [])

  pub step-IsValid : (e : Event E) (r : Run E) → IsValid r.state → r.missing ≡ [] → Runs (step e r)
  unfolding step poll_next
  step-IsValid (arrived topic item) r v h = (
    changed topic (put_item item) r,
    refl,
    change-IsValid topic (put_item item) (lookup topic r.state.consumers) r.state refl v,
    h,
  )
  step-IsValid (ended topic) r v h = (
    changed topic end_channel r,
    refl,
    change-IsValid topic end_channel (lookup topic r.state.consumers) r.state refl v,
    h,
  )
  step-IsValid (poll now fired last) r v h =
      let (o, done, v', unreported) =
        poll_topics-IsValid now (prepare fired last r.state)
          (prepare-IsValid fired last r.state v) in
      (
        record {
          state = o.state;
          delivered = r.delivered ++ only o.result;
          missing = r.missing ++ o.missing;
        },
        ap (on_outcome r) done,
        v',
        rw (h, unreported) refl,
      )

-- From a state whose queue holds exactly the topics that have a consumer, a consumer of several
-- topics runs through any events, with any answers to its updates and topics added twice, without
-- the panic of an empty queue and without ever reporting a topic that has no consumer, and its
-- queue again holds exactly the topics that have a consumer.
pub run-IsValid :
    (E : Type 0) (es : List (Event E)) (r : Run E)
    → IsValid r.state
    → r.missing ≡ []
    → (r' : Run E) × (run es r ≡ some r') × IsValid r'.state × (r'.missing ≡ [])
unfolding run
run-IsValid E [] r v h = (r, refl, v, h)
run-IsValid E (e ∷ es) r v h =
    let (r', done, v', h') = step-IsValid E e r v h in
    let (r'', finished, v'', h'') = run-IsValid E es r' v' h' in
    (r'', ap (continued (run es)) done ∙ finished, v'', h'')
