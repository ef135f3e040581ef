-- ===== src/Consumer/Multi/Ordering.antt =====
-- What comes through a topic's channel is delivered in order, each once, and nothing gets lost.
use pulsar_rdg_rs.Prelude.{
  ℕ, ◌≡◌, refl, sym, ap, ◌∙◌, Bool, true, false, Option, none, some, ok, err, List, [], ◌∷◌, ◌++◌,
  arith, Bool-cases, if◌then◌else◌, inl, inr,
}
use pulsar_rdg_rs.Prelude.Maps.{lookup, insert, lookup-insert}
use pulsar_rdg_rs.Prelude.Equals.{text_eq}
use pulsar_rdg_rs.Prelude.Members.{contains, contains-append}
use pulsar_rdg_rs.Bytes.{Text}
use pulsar_rdg_rs.Consumer.Topic.{Polled, pending, closed, message, failed}
use pulsar_rdg_rs.Consumer.Multi.Items.{oks}
use pulsar_rdg_rs.Consumer.Multi.{
  Body, Delivered, Member, Item, Delivered, poll_member, polled, front, behind,
}
use pulsar_rdg_rs.Consumer.Multi.Polling.{Rotation, on_polled, push_back_topic}
use pulsar_rdg_rs.Consumer.Multi.Running.{Event, arrived, ended, poll, Run, only}
use pulsar_rdg_rs.Consumer.Multi.Rotating.{started, served, on_polled-consumers}
use pulsar_rdg_rs.Consumer.Multi.Serving.{Captures}

-- What was delivered for a topic, in order.
abbrev pub of_topic : Text → List Delivered → List Body
of_topic t [] = []
of_topic t ((topic, id, p) ∷ ds) =
    let rest = of_topic t ds in if text_eq.beq topic t then (id, p) ∷ rest else rest

module _ (E : Type 0) (t : Text) where
  pub of_topic-append :
      (xs ys : List Delivered) → of_topic t (xs ++ ys) ≡ of_topic t xs ++ of_topic t ys
  of_topic-append [] ys = refl
  of_topic-append ((topic, id, p) ∷ xs) ys = ground (arith, of_topic-append xs ys)

  -- The topic has a consumer whose engine has not ended, and what the rotation has taken from its
  -- channel with what is left there makes up the list.
  pub record Flows (xs : List Body) (r : Rotation E) : Type 0 where
    pub member : Member E
    pub found : lookup t r.consumers ≡ some member
    pub going : member.ended ≡ false
    pub flow : oks (of_topic t (only r.result)) ++ member.items ≡ oks xs
    pub kept : contains t r.topics_to_remove ≡ false

  on_polled-kept :
      (topic : Text) (o : Polled E) (r : Rotation E)
      → text_eq.beq topic t ≡ false
      → contains t r.topics_to_remove ≡ false
      → contains t (on_polled topic o r).topics_to_remove ≡ false
  unfolding on_polled
  on_polled-kept topic pending r h k = k
  on_polled-kept topic closed r h k =
      ground (arith, contains-append t r.topics_to_remove (topic ∷ []))
  on_polled-kept topic (message i q) r h k = k
  on_polled-kept topic (failed e) r h k =
      ground (arith, contains-append t r.topics_to_remove (topic ∷ []))

  on_polled-other :
      (topic : Text) (o : Polled E) (r : Rotation E)
      → text_eq.beq topic t ≡ false
      → r.result ≡ none
      → of_topic t (only (on_polled topic o r).result) ≡ []
  unfolding on_polled
  on_polled-other topic pending r h e = rw e refl
  on_polled-other topic closed r h e = rw e refl
  on_polled-other topic (message i q) r h e = rw h refl
  on_polled-other topic (failed f) r h e = rw e refl

  -- The topic's own turn.
  own_turn :
      (topic : Text) (items : List (Item E)) (over : Bool) (xs : List Body) (r : Rotation E)
      → text_eq.beq topic t ≡ true
      → over ≡ false
      → items ≡ oks xs
      → r.result ≡ none
      → contains t r.topics_to_remove ≡ false
      → (oks (of_topic t (only (on_polled topic (front items over) r).result)) ++ behind items
          ≡ oks xs)
        × (contains t (on_polled topic (front items over) r).topics_to_remove ≡ false)
  unfolding on_polled
  own_turn topic [] true xs r h o e n k = absurd (cc)
  own_turn topic [] false xs r h o e n k = (rw n e, k)
  own_turn topic (ok (id, p) ∷ items) over xs r h o e n k = (rw h e, k)
  own_turn topic (err f ∷ items) over [] r h o e n k = absurd (cc)
  own_turn topic (err f ∷ items) over (x ∷ xs) r h o e n k = absurd (cc)

  pub served-Flows :
      (now : ℕ) (xs : List Body) (r : Rotation E) (topic : Text) (topics : List Text) (c : Member E)
      → r.result ≡ none
      → lookup topic r.consumers ≡ some c
      → Flows xs r
      → Flows xs (served E now topic topics c r)
  unfolding push_back_topic polled poll_member
  served-Flows now xs r topic topics c n h w =
      let s : Rotation E = started E now topic topics c r in
      let all : oks (of_topic t (only r.result)) ++ w.member.items ≡ w.member.items =
        ap (λ (d : Option Delivered). oks (of_topic t (only d)) ++ w.member.items) n in
      let whole : w.member.items ≡ oks xs = sym all ∙ w.flow in
      let consumers : (served E now topic topics c r).consumers
          ≡ insert topic (poll_member now c) r.consumers =
        on_polled-consumers E topic (polled c) s in
      elim (Bool-cases (text_eq.beq topic t)) [
        | inl here ↦
            let same : c ≡ w.member =
              cc (h, ap (λ u. lookup u r.consumers) ((text_eq.beq_iff topic t).0 here), w.found) in
            let (flow, kept) =
              own_turn topic c.items c.ended xs s here
                (ap (λ (d : Member E). d.ended) same ∙ w.going)
                (ap (λ (d : Member E). d.items) same ∙ whole) n w.kept in
            record {
              member = poll_member now c;
              found =
                  ap (lookup t) consumers
                  ∙ (lookup-insert topic t (poll_member now c) r.consumers ∙ rw here refl);
              going = ap (λ (d : Member E). d.ended) same ∙ w.going;
              flow = flow;
              kept = kept;
            }
        | inr there ↦ record {
          member = w.member;
          found =
              ap (lookup t) consumers
              ∙ (lookup-insert topic t (poll_member now c) r.consumers ∙ rw there w.found);
          going = w.going;
          flow =
              ap (λ (ds : List Body). oks ds ++ w.member.items)
                (on_polled-other topic (polled c) s there n)
              ∙ whole;
          kept = on_polled-kept topic (polled c) s there w.kept;
        }
      ]

  -- The same for a run: what was delivered of the topic, and what its channel holds.
  pub record InOrder (xs : List Body) (r : Run E) : Type 0 where
    pub member : Member E
    pub found : lookup t r.state.consumers ≡ some member
    pub going : member.ended ≡ false
    pub flow : oks (of_topic t r.delivered) ++ member.items ≡ oks xs
    pub captured : Captures t r.state.new_consumers

  -- The engine of the topic does not end and reports no error.
  abbrev pub IsHealthy : List (Event E) → Type 0
  IsHealthy [] = Unit
  IsHealthy (arrived topic (ok x) ∷ es) = IsHealthy es
  IsHealthy (arrived topic (err e) ∷ es) = (text_eq.beq topic t ≡ false) × IsHealthy es
  IsHealthy (ended topic ∷ es) = (text_eq.beq topic t ≡ false) × IsHealthy es
  IsHealthy (poll now fired last ∷ es) = IsHealthy es

  -- The messages that arrive for the topic.
  abbrev pub arrivals : List (Event E) → List Body
  arrivals [] = []
  arrivals (arrived topic (ok x) ∷ es) =
      let rest = arrivals es in if text_eq.beq topic t then x ∷ rest else rest
  arrivals (arrived topic (err e) ∷ es) = arrivals es
  arrivals (ended topic ∷ es) = arrivals es
  arrivals (poll now fired last ∷ es) = arrivals es
