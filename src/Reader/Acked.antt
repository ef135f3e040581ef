-- ===== src/Reader/Acked.antt =====
-- Whatever a reader returns it has acknowledged, and nothing else.
use pulsar_rdg_rs.Prelude.{continued, ℕ, ◌≡◌, refl, ap, sym, ◌∙◌, some, List, [], ◌∷◌, ◌++◌}
use pulsar_rdg_rs.Proto.{MessageIdData}
use pulsar_rdg_rs.Consumer.Topic.{Polled, pending, closed, message, failed}
use pulsar_rdg_rs.Consumer.Multi.{Body, Member, polled, poll_member}
use pulsar_rdg_rs.Reader.{
  State, polling_consumer, polling_ack, AckPoll, waiting, sent, refused, Answer, on_ack,
  on_consumer, poll_state, poll_reader, Event, arrived, gone, poll, Run, items_of, answered,
  on_answer, step, run, put_item, end_channel,
}

abbrev pub ids : List Body → List MessageIdData
ids [] = []
ids ((id, p) ∷ ms) = id ∷ ids ms

pub ids-append : (ms ns : List Body) → ids (ms ++ ns) ≡ ids ms ++ ids ns
ids-append [] ns = refl
ids-append ((id, p) ∷ ms) ns = ap (◌∷◌ id) (ids-append ms ns)

module _ (E : Type 0) where
  -- The reader's state is there, and a poll returns what it has acknowledged.
  abbrev IsAcked : Answer E → Type 0
  IsAcked a = ((s : State) × (a.reader.state ≡ some s)) × (a.acked ≡ ids (items_of a.next))

  on_ack-IsAcked : (m : Body) (ack : AckPoll) (c : Member E) → IsAcked (on_ack m ack c)
  unfolding on_ack
  on_ack-IsAcked m waiting c = ((polling_ack m, refl), refl)
  on_ack-IsAcked (id, p) sent c = ((polling_consumer, refl), refl)
  on_ack-IsAcked m refused c = ((polling_consumer, refl), refl)

  on_consumer-IsAcked :
      (ack : AckPoll) (o : Polled E) (c : Member E) → IsAcked (on_consumer ack o c)
  unfolding on_consumer
  on_consumer-IsAcked ack pending c = ((polling_consumer, refl), refl)
  on_consumer-IsAcked ack closed c = ((polling_consumer, refl), refl)
  on_consumer-IsAcked ack (message id p) c = on_ack-IsAcked (id, p) ack c
  on_consumer-IsAcked ack (failed e) c = ((polling_consumer, refl), refl)

  poll_state-IsAcked :
      (s : State) (now : ℕ) (ack : AckPoll) (c : Member E)
      → (a : Answer E) × (poll_state (some s) now ack c ≡ some a) × IsAcked a
  poll_state-IsAcked polling_consumer now ack c = (
    on_consumer ack (polled c) (poll_member now c),
    refl,
    on_consumer-IsAcked ack (polled c) (poll_member now c),
  )
  poll_state-IsAcked (polling_ack m) now ack c = (on_ack m ack c, refl, on_ack-IsAcked m ack c)

  -- The reader has a state, and what was acknowledged is what was returned.
  pub record IsSound (r : Run E) : Type 0 where
    pub state : State
    pub here : r.reader.state ≡ some state
    pub acks : r.acked ≡ ids r.returned

  pub step-IsSound :
      (e : Event E) (r : Run E) → IsSound r → (r' : Run E) × (step e r ≡ some r') × IsSound r'
  unfolding step poll_reader
  step-IsSound (arrived x) r v = (
    record r { reader = put_item x r.reader },
    refl,
    record { state = v.state; here = v.here; acks = v.acks },
  )
  step-IsSound gone r v = (
    record r { reader = end_channel r.reader },
    refl,
    record { state = v.state; here = v.here; acks = v.acks },
  )
  step-IsSound (poll now ack) r v =
      let (a, done, ((s, kept), acks)) = poll_state-IsAcked v.state now ack r.reader.consumer in
      let polled_so : poll_state r.reader.state now ack r.reader.consumer ≡ some a =
        ap (λ s. poll_state s now ack r.reader.consumer) v.here ∙ done in
      (
        answered r a,
        ap (on_answer r) polled_so,
        record {
          state = s;
          here = kept;
          acks =
              ap (λ (is : List MessageIdData). is ++ a.acked) v.acks
              ∙ (ap (λ (is : List MessageIdData). ids r.returned ++ is) acks
                  ∙ sym (ids-append r.returned (items_of a.next)));
        },
      )

-- A reader that has a state, with what it returned acknowledged, never runs into the panic of a
-- missing state, and whatever arrives, fails or ends, and however often the acknowledgements are
-- delayed or refused, the acknowledgements that have gone out are those of the messages that it has
-- returned, in order and each once.
pub run-IsSound :
    (E : Type 0) (es : List (Event E)) (r : Run E)
    → IsSound E r
    → (r' : Run E) × (run es r ≡ some r') × IsSound E r'
unfolding run
run-IsSound E [] r v = (r, refl, v)
run-IsSound E (e ∷ es) r v =
    let (r', done, v') = step-IsSound E e r v in
    let (r'', rest, v'') = run-IsSound E es r' v' in (r'', ap (continued (run es)) done ∙ rest, v'')
