-- ===== src/Consumer/Multi/Waiting.antt =====
-- A topic with a message on its way through the rotation of `poll_next`.
use pulsar_rdg_rs.Prelude.{
  ℕ, zero, suc, ◌<◌, ◌≡◌, ◌⊎◌, sym, ap, ◌∙◌, false, none, some, ok, List, [], ◌∷◌, ◌++◌, arith,
  length, Option-cases, inl, inr,
}
use pulsar_rdg_rs.Prelude.Maps.{lookup, lookup-insert}
use pulsar_rdg_rs.Prelude.Equals.{text_eq}
use pulsar_rdg_rs.Prelude.Members.{contains, contains-append}
use pulsar_rdg_rs.Bytes.{Text}
use pulsar_rdg_rs.Proto.{MessageIdData, MessageMetadata}
use pulsar_rdg_rs.Codec.{Payload}
use mathlib.Core.List.{append_assoc}
use pulsar_rdg_rs.Consumer.Topic.{Polled, pending, closed, message, failed}
use pulsar_rdg_rs.Consumer.Multi.{Member, Item, poll_member, polled, front}
use pulsar_rdg_rs.Consumer.Multi.Polling.{Rotation, on_polled, push_back_topic, rotate}
use pulsar_rdg_rs.Consumer.Multi.Rotating.{
  present, IsRotating, served, started, head-present, served-IsRotating, on_polled-existing_topics,
  on_polled-consumers, rotate-found, rotate-served,
}

module _ (E : Type 0) (t : Text) (id : MessageIdData) (p : Payload MessageMetadata) where
  -- The topic stands in the queue behind `ahead`, and its channel begins with the message.
  pub record Waits (ahead : List Text) (r : Rotation E) : Type 0 where
    pub behind : List Text
    pub queue : r.existing_topics ≡ ahead ++ t ∷ behind
    pub first : contains t ahead ≡ false
    pub member : Member E
    pub more : List (Item E)
    pub found : lookup t r.consumers ≡ some member
    pub next : member.items ≡ ok (id, p) ∷ more
    pub kept : contains t r.topics_to_remove ≡ false

  on_polled-kept :
      (topic : Text) (o : Polled E) (r : Rotation E)
      → text_eq.beq topic t ≡ false
      → contains t r.topics_to_remove ≡ false
      → contains t (on_polled topic o r).topics_to_remove ≡ false
  unfolding on_polled
  on_polled-kept topic pending r h k = k
  on_polled-kept topic closed r h k =
      ground (arith, contains-append t r.topics_to_remove (topic ∷ []))
  on_polled-kept topic (message i q) r h k = k
  on_polled-kept topic (failed e) r h k =
      ground (arith, contains-append t r.topics_to_remove (topic ∷ []))

  served-Waits :
      (now : ℕ) (topic : Text) (ahead : List Text) (c : Member E) (r : Rotation E)
      (w : Waits (topic ∷ ahead) r)
      → Waits ahead (served E now topic (ahead ++ t ∷ w.behind) c r)
  unfolding push_back_topic
  served-Waits now topic ahead c r w =
      let other : text_eq.beq topic t ≡ false = ground (arith, w.first) in
      let q : Rotation E = started E now topic (ahead ++ t ∷ w.behind) c r in
      record {
        behind = w.behind ++ topic ∷ [];
        queue =
            ap (λ (queue : List Text). queue ++ topic ∷ [])
              (on_polled-existing_topics E topic (polled c) q)
            ∙ append_assoc ahead (t ∷ w.behind) (topic ∷ []);
        first = ground (arith, w.first);
        member = w.member;
        more = w.more;
        found =
            ap (lookup t) (on_polled-consumers E topic (polled c) q)
            ∙ ground (arith, lookup-insert topic t (poll_member now c) r.consumers, w.found);
        next = w.next;
        kept = on_polled-kept topic (polled c) q other w.kept;
      }

  served-result :
      (now : ℕ) (topics : List Text) (c : Member E) (more : List (Item E)) (r : Rotation E)
      → c.items ≡ ok (id, p) ∷ more
      → (served E now t topics c r).result ≡ some (t, id, p)
  unfolding push_back_topic on_polled polled
  served-result now topics c more r h =
      ap
        (λ (items : List (Item E)).
          (on_polled t (front items c.ended) (started E now t topics c r)).result)
        h

  -- The rotation hands over the message, or another one and the topic has come closer.
  abbrev pub Served : List Text → Rotation E → Type 0
  Served ahead r =
      (r.result ≡ some (t, id, p))
      ⊎ ((ahead' : List Text) × (length ahead' < length ahead) × Waits ahead' r)

  Served-closer :
      (topic : Text) (ahead : List Text) (r : Rotation E)
      → Served ahead r
      → Served (topic ∷ ahead) r
  Served-closer topic ahead r (inl h) = inl h
  Served-closer topic ahead r (inr (ahead', h, w)) = inr (ahead', omega arith, w)

  serve-step :
      (now n : ℕ) (topic : Text) (ahead : List Text) (r : Rotation E)
      → ((r' : Rotation E)
          → IsRotating r'
          → r'.result ≡ none
          → Waits ahead r'
          → (r'' : Rotation E) × (rotate now n r' ≡ some r'') × Served ahead r'')
      → IsRotating r
      → r.result ≡ none
      → Waits (topic ∷ ahead) r
      → (r' : Rotation E) × (rotate now (suc n) r ≡ some r') × Served (topic ∷ ahead) r'
  serve-step now n topic ahead r ih v e w =
      let topics : List Text = ahead ++ t ∷ w.behind in
      let v' : (u : Text) → contains u (topic ∷ topics) ≡ present (lookup u r.consumers) =
        λ u. ap (contains u) (sym w.queue) ∙ v u in
      let (c, found) = head-present E topic topics r v' in
      let s : Rotation E = served E now topic topics c r in
      let w' : Waits ahead s = served-Waits now topic ahead c r w in
      let turned = rotate-served E now n topic topics c r e w.queue found in
      elim (Option-cases s.result) [
        | inl nothing ↦
            let (r', done, o) = ih s (served-IsRotating E now topic topics c r v') nothing w' in
            (r', turned ∙ done, Served-closer topic ahead r' o)
        | inr (m, some_message) ↦
            (s, turned ∙ rotate-found E now n m s some_message, inr (ahead, omega arith, w'))
      ]

  -- With more rounds than topics ahead, the rotation comes to this.
  pub rotate-Served :
      (now n : ℕ) (ahead : List Text) (r : Rotation E)
      → IsRotating r
      → r.result ≡ none
      → Waits ahead r
      → length ahead < n
      → (r' : Rotation E) × (rotate now n r ≡ some r') × Served ahead r'
  rotate-Served now zero ahead r v e w h = elim h [ ]
  rotate-Served now (suc n) [] r v e w h =
      let s : Rotation E = served E now t w.behind w.member r in
      (
        s,
        rotate-served E now n t w.behind w.member r e w.queue w.found
            ∙ rotate-found E now n (t, id, p) s
                (served-result now w.behind w.member w.more r w.next),
        inl (served-result now w.behind w.member w.more r w.next),
      )
  rotate-Served now (suc n) (topic ∷ ahead) r v e w h =
      serve-step now n topic ahead r
        (λ r' v' e' w'. rotate-Served now n ahead r' v' e' w' (omega arith)) v e w
