-- ===== src/Reader/Ordering.antt =====
-- A reader returns what comes through its channel in order, each message once.
use pulsar_rdg_rs.Prelude.{
  continued, ℕ, ◌≡◌, refl, ap, sym, ◌∙◌, Bool, true, false, ok, err, Option, none, some, List, [],
  ◌∷◌, ◌++◌, subst,
}
use pulsar_rdg_rs.Consumer.Multi.{Body, Item, Member, polled, poll_member, front, behind}
use pulsar_rdg_rs.Consumer.Multi.Items.{oks, oks-append, oks-split}
use pulsar_rdg_rs.Reader.{
  State, polling_consumer, polling_ack, Reader, AckPoll, waiting, sent, refused, Answer, on_ack,
  on_consumer, poll_state, poll_reader, Event, arrived, gone, poll, Run, items_of, answered,
  on_answer, step, run, put_item,
}
use mathlib.Core.List.{append_assoc, append-nil}

-- The message that waits for its acknowledgement.
abbrev pub held : Option State → List Body
held none = []
held (some polling_consumer) = []
held (some (polling_ack m)) = m ∷ []

module _ (E : Type 0) where
  -- What the reader holds and what its channel holds, while the engine is there.
  abbrev pub remaining : Reader E → List (Item E)
  remaining r = oks (held r.state) ++ r.consumer.items

  -- No error and no end comes from the engine, and it takes the acknowledgements.
  abbrev pub IsHealthy : List (Event E) → Type 0
  IsHealthy [] = Unit
  IsHealthy (arrived (ok x) ∷ es) = IsHealthy es
  IsHealthy (arrived (err e) ∷ es) = ⊥
  IsHealthy (gone ∷ es) = ⊥
  IsHealthy (poll now waiting ∷ es) = IsHealthy es
  IsHealthy (poll now sent ∷ es) = IsHealthy es
  IsHealthy (poll now refused ∷ es) = ⊥

  abbrev pub arrivals : List (Event E) → List Body
  arrivals [] = []
  arrivals (arrived (ok x) ∷ es) = x ∷ arrivals es
  arrivals (arrived (err e) ∷ es) = arrivals es
  arrivals (gone ∷ es) = arrivals es
  arrivals (poll now ack ∷ es) = arrivals es

  -- The acknowledgement is under way or taken.
  abbrev IsTaken : AckPoll → Type 0
  IsTaken waiting = Unit
  IsTaken sent = Unit
  IsTaken refused = ⊥

  -- What a poll returns, with what remains behind it, is what remained before.
  abbrev Keeps : List Body → Answer E → Type 0
  Keeps ys a =
      (oks (items_of a.next) ++ remaining a.reader ≡ oks ys)
      × (a.reader.consumer.ended ≡ false)
      × ((s : State) × (a.reader.state ≡ some s))

  on_ack-Keeps :
      (m : Body) (ack : AckPoll) (c : Member E) (ys : List Body)
      → IsTaken ack
      → c.ended ≡ false
      → ok m ∷ c.items ≡ oks ys
      → Keeps ys (on_ack m ack c)
  unfolding on_ack
  on_ack-Keeps m waiting c ys h g k = (k, g, (polling_ack m, refl))
  on_ack-Keeps (id, p) sent c ys h g k = (k, g, (polling_consumer, refl))
  on_ack-Keeps m refused c ys h g k = absurd h

  on_consumer-Keeps :
      (ack : AckPoll) (now : ℕ) (c : Member E) (items : List (Item E)) (over : Bool)
      (ys : List Body)
      → IsTaken ack
      → c.ended ≡ false
      → c.items ≡ behind items
      → over ≡ false
      → items ≡ oks ys
      → Keeps ys (on_consumer ack (front items over) c)
  unfolding on_consumer
  on_consumer-Keeps ack now c [] true ys h g i o k = absurd (cc)
  on_consumer-Keeps ack now c [] false ys h g i o k = (i ∙ k, g, (polling_consumer, refl))
  on_consumer-Keeps ack now c (ok (id, p) ∷ items) over ys h g i o k =
      on_ack-Keeps (id, p) ack c ys h g (ap (◌∷◌ (ok (id, p))) i ∙ k)
  on_consumer-Keeps ack now c (err e ∷ items) over [] h g i o k = absurd (cc)
  on_consumer-Keeps ack now c (err e ∷ items) over (y ∷ ys) h g i o k = absurd (cc)

  poll_state-Keeps :
      (s : State) (now : ℕ) (ack : AckPoll) (c : Member E) (ys : List Body)
      → IsTaken ack
      → c.ended ≡ false
      → oks (held (some s)) ++ c.items ≡ oks ys
      → (a : Answer E) × (poll_state (some s) now ack c ≡ some a) × Keeps ys a
  unfolding polled poll_member
  poll_state-Keeps polling_consumer now ack c ys h g k = (
    on_consumer ack (polled c) (poll_member now c),
    refl,
    on_consumer-Keeps ack now (poll_member now c) c.items c.ended ys h g refl g k,
  )
  poll_state-Keeps (polling_ack m) now ack c ys h g k =
      (on_ack m ack c, refl, on_ack-Keeps m ack c ys h g k)

  -- What was returned, what the reader holds and what its channel holds make up the list.
  pub record InOrder (xs : List Body) (r : Run E) : Type 0 where
    pub state : State
    pub here : r.reader.state ≡ some state
    pub going : r.reader.consumer.ended ≡ false
    pub flow : oks r.returned ++ remaining r.reader ≡ oks xs

  answered-InOrder :
      (xs ys : List Body) (r : Run E) (a : Answer E)
      → oks r.returned ++ remaining r.reader ≡ oks xs
      → remaining r.reader ≡ oks ys
      → Keeps ys a
      → InOrder xs (answered r a)
  answered-InOrder xs ys r a h k (f, g, (s, e)) = record {
    state = s;
    here = e;
    going = g;
    flow =
        ap (λ (is : List (Item E)). is ++ remaining a.reader)
          (oks-append E r.returned (items_of a.next))
        ∙ (append_assoc (oks r.returned) (oks (items_of a.next)) (remaining a.reader)
            ∙ (ap (λ (is : List (Item E)). oks r.returned ++ is) (f ∙ sym k) ∙ h));
  }

  poll-InOrder :
      (now : ℕ) (ack : AckPoll) (xs : List Body) (r : Run E)
      → IsTaken ack
      → InOrder xs r
      → (r' : Run E) × (step (poll now ack) r ≡ some r') × InOrder xs r'
  unfolding step poll_reader
  poll-InOrder now ack xs r h w =
      let (ys, left) = oks-split E r.returned (remaining r.reader) xs w.flow in
      let (a, done, k) =
        poll_state-Keeps w.state now ack r.reader.consumer ys h w.going
          (ap (λ s. oks (held s) ++ r.reader.consumer.items) (sym w.here) ∙ left) in
      (
        answered r a,
        ap (on_answer r) (ap (λ s. poll_state s now ack r.reader.consumer) w.here ∙ done),
        answered-InOrder xs ys r a w.flow left k,
      )

  arrived-InOrder :
      (x : Body) (xs : List Body) (r : Run E)
      → InOrder xs r
      → InOrder (xs ++ x ∷ []) (record r { reader = put_item (ok x) r.reader })
  arrived-InOrder x xs r w = record {
    state = w.state;
    here = w.here;
    going = w.going;
    flow =
        ap (λ (is : List (Item E)). oks r.returned ++ is)
          (sym (append_assoc (oks (held r.reader.state)) r.reader.consumer.items (ok x ∷ [])))
        ∙ (sym (append_assoc (oks r.returned) (remaining r.reader) (ok x ∷ []))
            ∙ (ap (λ (is : List (Item E)). is ++ ok x ∷ []) w.flow
                ∙ sym (oks-append E xs (x ∷ []))));
  }

  -- While the engine reports no error, does not end and takes every acknowledgement, however late,
  -- the run ends without a panic, and the messages that the reader has returned, then the one that
  -- waits for its acknowledgement, then those in its channel, are those of before followed by
  -- those that arrived, in order and each once.
  pub run-InOrder_reader :
      (es : List (Event E)) (xs : List Body) (r : Run E)
      → IsHealthy es
      → InOrder xs r
      → (r' : Run E) × (run es r ≡ some r') × InOrder (xs ++ arrivals es) r'
  unfolding run step
  run-InOrder_reader [] xs r h w = (r, refl, rw append-nil w)
  run-InOrder_reader (arrived (ok x) ∷ es) xs r h w =
      let (r', done, w') =
        run-InOrder_reader es (xs ++ x ∷ []) (record r { reader = put_item (ok x) r.reader }) h
          (arrived-InOrder x xs r w) in
      (r', done, subst (λ ys. InOrder ys r') (append_assoc xs (x ∷ []) (arrivals es)) w')
  run-InOrder_reader (arrived (err e) ∷ es) xs r h w = absurd h
  run-InOrder_reader (gone ∷ es) xs r h w = absurd h
  run-InOrder_reader (poll now refused ∷ es) xs r h w = absurd h
  run-InOrder_reader (poll now waiting ∷ es) xs r h w =
      let (r', done, w') = poll-InOrder now waiting xs r tt w in
      let (r'', rest, w'') = run-InOrder_reader es xs r' h w' in
      (r'', ap (continued (run es)) done ∙ rest, w'')
  run-InOrder_reader (poll now sent ∷ es) xs r h w =
      let (r', done, w') = poll-InOrder now sent xs r tt w in
      let (r'', rest, w'') = run-InOrder_reader es xs r' h w' in
      (r'', ap (continued (run es)) done ∙ rest, w'')
