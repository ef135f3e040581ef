-- ===== src/Consumer/Multi/Fairness.antt =====
-- A topic with a message is served within as many polls as it has topics before it, and one more.
use pulsar_rdg_rs.Prelude.{
  continued, ℕ, suc, ◌<◌, ◌≡◌, ◌⊎◌, refl, sym, ap, ◌∙◌, Option, some, ok, List, [], ◌∷◌, ◌++◌,
  arith, length, length-append, subst, inl, inr,
}
use pulsar_rdg_rs.Prelude.Maps.{lookup}
use pulsar_rdg_rs.Prelude.Equals.{text_eq}
use pulsar_rdg_rs.Prelude.Members.{without, contains-without, without-append, length-without-le}
use pulsar_rdg_rs.Bytes.{Text}
use pulsar_rdg_rs.Proto.{MessageIdData, MessageMetadata}
use pulsar_rdg_rs.Codec.{Payload}
use pulsar_rdg_rs.Consumer.Multi.{
  Delivered, Member, MultiTopicConsumer, Item, Delivered, remove_consumers,
}
use pulsar_rdg_rs.Consumer.Multi.Updating.{Answers}
use pulsar_rdg_rs.Consumer.Multi.Polling.{
  Rotation, start, on_rotated, poll_topics, prepare, Outcome, poll_next,
}
use pulsar_rdg_rs.Consumer.Multi.Running.{
  Event, arrived, ended, poll, Run, step, run, changed, put_item, end_channel, only, given,
  on_outcome,
}
use pulsar_rdg_rs.Consumer.Multi.Rotating.{IsValid}
use pulsar_rdg_rs.Consumer.Multi.Waiting.{Waits, Served, rotate-Served}
use pulsar_rdg_rs.Consumer.Multi.Removing.{
  remove_each-existing_topics, lookup-remove_each, remove_each-new_consumers,
}
use pulsar_rdg_rs.Consumer.Multi.Present.{
  step-IsValid, change-IsValid, prepare-IsValid, run-IsValid,
}
use pulsar_rdg_rs.Consumer.Multi.Serving.{Captures, IsNext, prepare-IsNext, change-IsNext}
use mathlib.Core.List.{Mem, mem-cons_self, mem-append_right}
use pulsar_rdg_rs.Consumer.Multi.Delivering.{run-delivered}

-- How often the consumer is polled.
abbrev pub polls : {E : Type 0} → List (Event E) → ℕ
polls [] = 0
polls (poll now fired last ∷ es) = suc (polls es)
polls (arrived topic item ∷ es) = polls es
polls (ended topic ∷ es) = polls es

module _ (E : Type 0) (t : Text) (id : MessageIdData) (p : Payload MessageMetadata) where
  on_rotated-IsNext :
      (ahead : List Text) (m : MultiTopicConsumer E) (r : Rotation E)
      → Captures t m.new_consumers
      → Waits E t id p ahead r
      → IsNext E t id p (without r.topics_to_remove ahead) (on_rotated m r).state
  unfolding on_rotated remove_consumers
  on_rotated-IsNext ahead m r k w =
      let gone : List Text = r.topics_to_remove in
      let m' : MultiTopicConsumer E = record m {
        consumers = r.consumers;
        existing_topics = without gone r.existing_topics;
      } in
      record {
        behind = without gone w.behind;
        queue =
            remove_each-existing_topics E gone m'
            ∙ (ap (without gone) w.queue
                ∙ (without-append gone ahead (t ∷ w.behind) ∙ rw w.kept refl));
        first = contains-without t gone ahead ∙ rw w.kept w.first;
        member = w.member;
        more = w.more;
        found = lookup-remove_each E t gone m' ∙ rw w.kept w.found;
        next = w.next;
        captured = subst (Captures t) (sym (remove_each-new_consumers E gone m')) k;
      }

  -- A poll hands over the message, or the topic has come closer.
  abbrev PolledTo : List Text → Outcome E → Type 0
  PolledTo ahead o =
      (o.result ≡ some (t, id, p))
      ⊎ ((ahead' : List Text) × (length ahead' < length ahead) × IsNext E t id p ahead' o.state)

  on_rotated-Polled :
      (ahead : List Text) (m : MultiTopicConsumer E) (r : Rotation E)
      → Captures t m.new_consumers
      → Served E t id p ahead r
      → PolledTo ahead (on_rotated m r)
  unfolding on_rotated
  on_rotated-Polled ahead m r k (inl h) = inl h
  on_rotated-Polled ahead m r k (inr (ahead', h, w)) = inr (
    without r.topics_to_remove ahead',
    omega (arith, length-without-le r.topics_to_remove ahead'),
    on_rotated-IsNext ahead' m r k w,
  )

  poll_topics-Polled :
      (now : ℕ) (ahead : List Text) (m : MultiTopicConsumer E)
      → IsValid m
      → IsNext E t id p ahead m
      → (o : Outcome E) × (poll_topics now m ≡ some o) × PolledTo ahead o
  unfolding poll_topics
  poll_topics-Polled now ahead m v w =
      let waits : Waits E t id p ahead (start m) = record {
        behind = w.behind;
        queue = w.queue;
        first = w.first;
        member = w.member;
        more = w.more;
        found = w.found;
        next = w.next;
        kept = refl;
      } in
      let enough : length ahead < length m.existing_topics =
        omega (arith, ap length w.queue, length-append ahead (t ∷ w.behind)) in
      let (r, done, s) =
        rotate-Served E t id p now (length m.existing_topics) ahead (start m) v refl waits enough in
      (
        on_rotated m r,
        ap (continued (λ r. some (on_rotated m r))) done,
        on_rotated-Polled ahead m r w.captured s,
      )

  put_item-next :
      (item : Item E) (c : Member E) (more : List (Item E))
      → c.items ≡ ok (id, p) ∷ more
      → (more' : List (Item E)) × ((put_item item c).items ≡ ok (id, p) ∷ more')
  put_item-next item c more h =
      (more ++ item ∷ [], ap (λ (items : List (Item E)). items ++ item ∷ []) h)

  given-Mem :
      (r : Run E) (o : Outcome E)
      → o.result ≡ some (t, id, p)
      → Mem (t, id, p) (given r o).delivered
  given-Mem r o h =
      subst (λ (result : Option Delivered). Mem (t, id, p) (r.delivered ++ only result)) (sym h)
        (mem-append_right r.delivered mem-cons_self)

  -- From a message that is delivered by a poll, or a topic that comes closer, to the rest of the
  -- run.
  polled-delivers :
      (es : List (Event E)) (ahead : List Text) (r : Run E) (o : Outcome E)
      → ((ahead' : List Text)
          → IsNext E t id p ahead' o.state
          → length ahead' < polls es
          → (r' : Run E) × (run es (given r o) ≡ some r') × Mem (t, id, p) r'.delivered)
      → IsValid o.state
      → (given r o).missing ≡ []
      → length ahead < suc (polls es)
      → PolledTo ahead o
      → (r' : Run E) × (run es (given r o) ≡ some r') × Mem (t, id, p) r'.delivered
  polled-delivers es ahead r o ih v m h (inl found) =
      let (r', done, v', m') = run-IsValid E es (given r o) v m in
      (r', done, run-delivered E t id p es (given r o) r' done (given-Mem r o found))
  polled-delivers es ahead r o ih v m h (inr (ahead', closer, w)) = ih ahead' w (omega arith)

  -- A poll as a step of the run.
  poll-step :
      (now : ℕ) (fired : List (Option (Answers E))) (last : Option (Answers E)) (ahead : List Text)
      (r : Run E)
      → IsValid r.state
      → r.missing ≡ []
      → IsNext E t id p ahead r.state
      → (o : Outcome E) × (step (poll now fired last) r ≡ some (given r o))
        × IsValid o.state
        × ((given r o).missing ≡ [])
        × PolledTo ahead o
  unfolding step poll_next
  poll-step now fired last ahead r v m w =
      let (r', done, v', m') = step-IsValid E (poll now fired last) r v m in
      let (o, done', closer) =
        poll_topics-Polled now ahead (prepare fired last r.state)
          (prepare-IsValid E fired last r.state v)
          (prepare-IsNext E t id p ahead fired last r.state w) in
      let stepped : step (poll now fired last) r ≡ some (given r o) = ap (on_outcome r) done' in
      let same : r' ≡ given r o = cc (done, stepped) in
      (
        o,
        stepped,
        subst (λ (s : Run E). IsValid s.state) same v',
        subst (λ (s : Run E). s.missing ≡ []) same m',
        closer,
      )

  -- A topic that is in the queue, behind `ahead` for its first time, with a message at the head of
  -- its channel: once the consumer has been polled more often than `ahead` is long, the message has
  -- been delivered, whatever else arrives, ends, fails or is added in between. Before, the queue
  -- holds exactly the topics with a consumer, nothing was reported, and an update that is under way
  -- knows the topic.
  pub run-delivers :
      (es : List (Event E)) (ahead : List Text) (r : Run E)
      → IsValid r.state
      → r.missing ≡ []
      → IsNext E t id p ahead r.state
      → length ahead < polls es
      → (r' : Run E) × (run es r ≡ some r') × Mem (t, id, p) r'.delivered
  unfolding run
  run-delivers [] ahead r v m w h = absurd (omega arith)
  run-delivers (arrived topic item ∷ es) ahead r v m w h =
      run-delivers es ahead (changed topic (put_item item) r)
        (change-IsValid E topic (put_item item) (lookup topic r.state.consumers) r.state refl v) m
        (change-IsNext E t id p ahead topic (put_item item) (lookup topic r.state.consumers) r.state
          (put_item-next item) refl w)
        h
  run-delivers (ended topic ∷ es) ahead r v m w h =
      run-delivers es ahead (changed topic end_channel r)
        (change-IsValid E topic end_channel (lookup topic r.state.consumers) r.state refl v) m
        (change-IsNext E t id p ahead topic end_channel (lookup topic r.state.consumers) r.state
          (λ c more e. (more, e)) refl w)
        h
  run-delivers (poll now fired last ∷ es) ahead r v m w h =
      let (o, stepped, v', m', closer) = poll-step now fired last ahead r v m w in
      let (r', done, found) =
        polled-delivers es ahead r o
          (λ ahead' w' h'. run-delivers es ahead' (given r o) v' m' w' h') v' m' h closer in
      (r', ap (continued (run es)) stepped ∙ done, found)
