-- ===== src/Consumer/Multi/Lossless.antt =====
-- A run delivers each topic's messages in order, each once, and loses none of them.
use pulsar_rdg_rs.Prelude.{
  continued, ℕ, ◌≡◌, refl, sym, ap, ◌∙◌, false, Option, some, ok, err, List, [], ◌∷◌, ◌++◌, arith,
  length, subst,
}
use pulsar_rdg_rs.Prelude.Maps.{lookup}
use pulsar_rdg_rs.Prelude.Equals.{text_eq}
use pulsar_rdg_rs.Prelude.Members.{without}
use pulsar_rdg_rs.Bytes.{Text}
use mathlib.Core.List.{append_assoc, append-nil}
use pulsar_rdg_rs.Consumer.Multi.Items.{oks, oks-append, oks-split}
use pulsar_rdg_rs.Consumer.Multi.{Body, Member, MultiTopicConsumer, Item, remove_consumers}
use pulsar_rdg_rs.Consumer.Multi.Updating.{Answers}
use pulsar_rdg_rs.Consumer.Multi.Polling.{
  start, on_rotated, poll_topics, prepare, Outcome, poll_next,
}
use pulsar_rdg_rs.Consumer.Multi.Running.{
  Event, arrived, ended, poll, Run, step, run, changed, put_item, end_channel, only, given,
  on_outcome,
}
use pulsar_rdg_rs.Consumer.Multi.Rotating.{rotate-keeps, IsValid}
use pulsar_rdg_rs.Consumer.Multi.Removing.{lookup-remove_each, remove_each-new_consumers}
use pulsar_rdg_rs.Consumer.Multi.Present.{step-IsValid, prepare-IsValid}
use pulsar_rdg_rs.Consumer.Multi.Serving.{Captures}
use pulsar_rdg_rs.Consumer.Multi.Ordering.{
  of_topic, of_topic-append, Flows, served-Flows, InOrder, IsHealthy, arrivals,
}
use pulsar_rdg_rs.Consumer.Multi.Keeping.{Has, prepare-Has}
use pulsar_rdg_rs.Consumer.Multi.Arriving.{changed-other, arrived-InOrder}

module _ (E : Type 0) (t : Text) where
  -- A poll takes at most the first message from the channel, and then hands it over.
  poll_topics-Flows :
      (now : ℕ) (ys : List Body) (c : Member E) (m : MultiTopicConsumer E)
      → IsValid m
      → Has E t c m
      → c.ended ≡ false
      → c.items ≡ oks ys
      → (o : Outcome E) × (poll_topics now m ≡ some o)
        × (d : Member E) × Has E t d o.state
        × (d.ended ≡ false)
        × (oks (of_topic t (only o.result)) ++ d.items ≡ oks ys)
  unfolding poll_topics on_rotated remove_consumers
  poll_topics-Flows now ys c m v w g h =
      let before : Flows E t ys (start m) = record {
        member = c;
        found = w.found;
        going = g;
        flow = h;
        kept = refl;
      } in
      let (r, done, f) =
        rotate-keeps E (Flows E t ys) now (length m.existing_topics)
          (λ r topic topics c n q found k. served-Flows E t now ys r topic topics c n found k)
          (start m) v (omega arith) before in
      let gone : List Text = r.topics_to_remove in
      let m' : MultiTopicConsumer E = record m {
        consumers = r.consumers;
        existing_topics = without gone r.existing_topics;
      } in
      (
        on_rotated m r,
        ap (continued (λ r. some (on_rotated m r))) done,
        f.member,
        record {
          found = lookup-remove_each E t gone m' ∙ rw f.kept f.found;
          captured = subst (Captures t) (sym (remove_each-new_consumers E gone m')) w.captured;
        },
        f.going,
        f.flow,
      )

  given-InOrder :
      (xs ys : List Body) (items : List (Item E)) (d : Member E) (r : Run E) (o : Outcome E)
      → oks (of_topic t r.delivered) ++ items ≡ oks xs
      → items ≡ oks ys
      → Has E t d o.state
      → d.ended ≡ false
      → oks (of_topic t (only o.result)) ++ d.items ≡ oks ys
      → InOrder E t xs (given r o)
  given-InOrder xs ys items d r o h k w g f = record {
    member = d;
    found = w.found;
    going = g;
    flow =
        ap (λ (bs : List Body). oks bs ++ d.items) (of_topic-append E t r.delivered (only o.result))
        ∙ (ap (λ (is : List (Item E)). is ++ d.items)
              (oks-append E (of_topic t r.delivered) (of_topic t (only o.result)))
            ∙ (append_assoc (oks (of_topic t r.delivered)) (oks (of_topic t (only o.result)))
                  d.items
                ∙ (ap (λ (is : List (Item E)). oks (of_topic t r.delivered) ++ is) (f ∙ sym k)
                    ∙ h)));
    captured = w.captured;
  }

  poll-InOrder :
      (now : ℕ) (fired : List (Option (Answers E))) (last : Option (Answers E)) (xs : List Body)
      (r : Run E)
      → IsValid r.state
      → InOrder E t xs r
      → (r' : Run E) × (step (poll now fired last) r ≡ some r') × InOrder E t xs r'
  unfolding step poll_next
  poll-InOrder now fired last xs r v w =
      let (ys, items) = oks-split E (of_topic t r.delivered) w.member.items xs w.flow in
      let (o, done, d, has, going, flow) =
        poll_topics-Flows now ys w.member (prepare fired last r.state)
          (prepare-IsValid E fired last r.state v)
          (prepare-Has E t w.member fired last r.state v
            record { found = w.found; captured = w.captured })
          w.going items in
      (
        given r o,
        ap (on_outcome r) done,
        given-InOrder xs ys w.member.items d r o w.flow items has going flow,
      )

  -- What arrives is appended to the list.
  step-InOrder :
      (e : Event E) (es : List (Event E)) (xs : List Body) (r : Run E)
      → IsHealthy E t (e ∷ es)
      → IsValid r.state
      → InOrder E t xs r
      → (r' : Run E) × (step e r ≡ some r') × InOrder E t (xs ++ arrivals E t (e ∷ [])) r'
  unfolding step
  step-InOrder (arrived topic (ok x)) es xs r h v w =
      (changed topic (put_item (ok x)) r, refl, arrived-InOrder E t xs topic x r w)
  step-InOrder (arrived topic (err f)) es xs r h v w = (
    changed topic (put_item (err f)) r,
    refl,
    rw append-nil (
        changed-other E t xs topic (put_item (err f)) (lookup topic r.state.consumers) r refl h.0
          w),
  )
  step-InOrder (ended topic) es xs r h v w = (
    changed topic end_channel r,
    refl,
    rw append-nil
        (changed-other E t xs topic end_channel (lookup topic r.state.consumers) r refl h.0 w),
  )
  step-InOrder (poll now fired last) es xs r h v w =
      let (r', done, w') = poll-InOrder now fired last xs r v w in (r', done, rw append-nil w')

  IsHealthy-tail : (e : Event E) (es : List (Event E)) → IsHealthy E t (e ∷ es) → IsHealthy E t es
  IsHealthy-tail (arrived topic (ok x)) es h = h
  IsHealthy-tail (arrived topic (err f)) es h = h.1
  IsHealthy-tail (ended topic) es h = h.1
  IsHealthy-tail (poll now fired last) es h = h

  arrivals-cons :
      (e : Event E) (es : List (Event E))
      → arrivals E t (e ∷ es) ≡ arrivals E t (e ∷ []) ++ arrivals E t es
  arrivals-cons (arrived topic (ok x)) es = ground arith
  arrivals-cons (arrived topic (err f)) es = refl
  arrivals-cons (ended topic) es = refl
  arrivals-cons (poll now fired last) es = refl

  -- When a topic's engine neither ends nor reports an error, the run ends without a panic, and the
  -- messages that it delivers for the topic, with those still in the topic's channel, are those of
  -- before followed by those that arrived, in order and each once, whatever happens to other topics
  -- and whatever is added. Before, the queue holds exactly the topics with a consumer, nothing was
  -- reported, and an update that is under way knows the topic.
  pub run-InOrder :
      (es : List (Event E)) (xs : List Body) (r : Run E)
      → IsHealthy E t es
      → IsValid r.state
      → r.missing ≡ []
      → InOrder E t xs r
      → (r' : Run E) × (run es r ≡ some r') × InOrder E t (xs ++ arrivals E t es) r'
  unfolding run
  run-InOrder [] xs r h v m w = (r, refl, rw append-nil w)
  run-InOrder (e ∷ es) xs r h v m w =
      let (r1, done, w1) = step-InOrder e es xs r h v w in
      let (r2, done', v2, m2) = step-IsValid E e r v m in
      let same : r2 ≡ r1 = cc (done, done') in
      let (r3, rest, w3) =
        run-InOrder es (xs ++ arrivals E t (e ∷ [])) r1 (IsHealthy-tail e es h)
          (subst (λ (s : Run E). IsValid s.state) same v2)
          (subst (λ (s : Run E). s.missing ≡ []) same m2) w1 in
      (
        r3,
        ap (continued (run es)) done ∙ rest,
        subst (λ ys. InOrder E t ys r3)
            (append_assoc xs (arrivals E t (e ∷ [])) (arrivals E t es)
              ∙ ap (◌++◌ xs) (sym (arrivals-cons e es)))
            w3,
      )
