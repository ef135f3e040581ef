-- ===== src/Consumer/Multi/Rotating.antt =====
-- The rotation of the topics in `poll_next`, step by step.
use pulsar_rdg_rs.Prelude.{
  continued, ℕ, zero, suc, ◌≤◌, ◌≡◌, refl, sym, ap, ◌∙◌, Bool, true, false, Option, none, some,
  List, [], ◌∷◌, ◌++◌, arith, length, length-append, Option-cases, inl, inr,
}
use pulsar_rdg_rs.Prelude.Maps.{beq_refl, lookup, insert, lookup-insert}
use pulsar_rdg_rs.Prelude.Equals.{text_eq}
use pulsar_rdg_rs.Prelude.Members.{contains, contains-append}
use pulsar_rdg_rs.Bytes.{Text}
use pulsar_rdg_rs.Consumer.Topic.{Polled, pending, closed, message, failed}
use pulsar_rdg_rs.Consumer.Multi.{Delivered, Member, MultiTopicConsumer, poll_member, polled}
use pulsar_rdg_rs.Consumer.Multi.Polling.{
  Rotation, on_polled, visit, push_back_topic, poll_front, rotate,
}

abbrev pub present : {A : Type 0} → Option A → Bool
present none = false
present (some a) = true

-- The topics in the queue are the topics with a consumer.
abbrev pub IsValid : {E : Type 0} → MultiTopicConsumer E → Type 0
IsValid m = (t : Text) → contains t m.existing_topics ≡ present (lookup t m.consumers)

abbrev pub IsRotating : {E : Type 0} → Rotation E → Type 0
IsRotating r = (t : Text) → contains t r.existing_topics ≡ present (lookup t r.consumers)

module _ (E : Type 0) where
  pub on_polled-existing_topics :
      (topic : Text) (p : Polled E) (r : Rotation E)
      → (on_polled topic p r).existing_topics ≡ r.existing_topics
  unfolding on_polled
  on_polled-existing_topics topic pending r = refl
  on_polled-existing_topics topic closed r = refl
  on_polled-existing_topics topic (message id payload) r = refl
  on_polled-existing_topics topic (failed e) r = refl

  pub on_polled-consumers :
      (topic : Text) (p : Polled E) (r : Rotation E) → (on_polled topic p r).consumers ≡ r.consumers
  unfolding on_polled
  on_polled-consumers topic pending r = refl
  on_polled-consumers topic closed r = refl
  on_polled-consumers topic (message id payload) r = refl
  on_polled-consumers topic (failed e) r = refl

  on_polled-missing :
      (topic : Text) (p : Polled E) (r : Rotation E) → (on_polled topic p r).missing ≡ r.missing
  unfolding on_polled
  on_polled-missing topic pending r = refl
  on_polled-missing topic closed r = refl
  on_polled-missing topic (message id payload) r = refl
  on_polled-missing topic (failed e) r = refl

  -- The body of the loop, for a topic that has a consumer.
  abbrev pub started : ℕ → Text → List Text → Member E → Rotation E → Rotation E
  started now topic topics c r = record {
    existing_topics = topics;
    consumers = insert topic (poll_member now c) r.consumers;
    topics_to_remove = r.topics_to_remove;
    result = r.result;
    missing = r.missing;
  }

  abbrev pub served : ℕ → Text → List Text → Member E → Rotation E → Rotation E
  served now topic topics c r =
      push_back_topic topic (on_polled topic (polled c) (started now topic topics c r))

  pub poll_front-served :
      (now : ℕ) (topic : Text) (topics : List Text) (c : Member E) (r : Rotation E)
      → lookup topic r.consumers ≡ some c
      → poll_front now (topic ∷ topics) r ≡ some (served now topic topics c r)
  unfolding poll_front visit
  poll_front-served now topic topics c r h = rw h refl

  pub served-IsRotating :
      (now : ℕ) (topic : Text) (topics : List Text) (c : Member E) (r : Rotation E)
      → ((t : Text) → contains t (topic ∷ topics) ≡ present (lookup t r.consumers))
      → IsRotating (served now topic topics c r)
  unfolding push_back_topic
  served-IsRotating now topic topics c r h t =
      let q : Rotation E = started now topic topics c r in
      rw (on_polled-existing_topics topic (polled c) q) rw (on_polled-consumers topic (polled c) q)
        ground
        (
          arith,
          h t,
          contains-append t topics (topic ∷ []),
          lookup-insert topic t (poll_member now c) r.consumers,
        )

  pub served-existing_topics :
      (now : ℕ) (topic : Text) (topics : List Text) (c : Member E) (r : Rotation E)
      → (served now topic topics c r).existing_topics ≡ topics ++ topic ∷ []
  unfolding push_back_topic
  served-existing_topics now topic topics c r =
      rw (on_polled-existing_topics topic (polled c) (started now topic topics c r)) refl

  served-missing :
      (now : ℕ) (topic : Text) (topics : List Text) (c : Member E) (r : Rotation E)
      → (served now topic topics c r).missing ≡ r.missing
  unfolding push_back_topic
  served-missing now topic topics c r =
      on_polled-missing topic (polled c) (started now topic topics c r)

  -- A topic at the head of the queue has a consumer.
  pub head-present :
      (topic : Text) (topics : List Text) (r : Rotation E)
      → ((t : Text) → contains t (topic ∷ topics) ≡ present (lookup t r.consumers))
      → (c : Member E) × (lookup topic r.consumers ≡ some c)
  head-present topic topics r h = elim (Option-cases (lookup topic r.consumers)) [
    | inl e ↦ absurd (ground (arith, h topic, e, beq_refl topic))
    | inr (c, e) ↦ (c, e)
  ]

  pub rotate-found :
      (now n : ℕ) (d : Delivered) (r : Rotation E) → r.result ≡ some d → rotate now n r ≡ some r
  unfolding rotate
  rotate-found now zero d r h = refl
  rotate-found now (suc n) d r h = rw h refl

  pub rotate-served :
      (now n : ℕ) (topic : Text) (topics : List Text) (c : Member E) (r : Rotation E)
      → r.result ≡ none
      → r.existing_topics ≡ topic ∷ topics
      → lookup topic r.consumers ≡ some c
      → rotate now (suc n) r ≡ rotate now n (served now topic topics c r)
  unfolding rotate
  rotate-served now n topic topics c r e q h =
      (λ i. elim (e i) [
        | some found ↦ some r
        | none ↦ continued (rotate now n) (poll_front now r.existing_topics r)
      ])
      ∙ (ap (λ queue. continued (rotate now n) (poll_front now queue r)) q
          ∙ ap (continued (rotate now n)) (poll_front-served now topic topics c r h))

  rule-step :
      (P : Rotation E → Type 0) (now n : ℕ) (r : Rotation E)
      → ((topic : Text) (topics : List Text) (c : Member E)
          → r.result ≡ none
          → r.existing_topics ≡ topic ∷ topics
          → lookup topic r.consumers ≡ some c
          → P (served now topic topics c r))
      → ((r' : Rotation E)
          → IsRotating r'
          → n ≤ length r'.existing_topics
          → P r'
          → (r'' : Rotation E) × (rotate now n r' ≡ some r'') × P r'')
      → (result : Option Delivered) → r.result ≡ result
      → (queue : List Text) → r.existing_topics ≡ queue
      → IsRotating r
      → suc n ≤ length r.existing_topics
      → P r
      → (r' : Rotation E) × (rotate now (suc n) r ≡ some r') × P r'
  rule-step P now n r keep ih (some d) e queue q v h k = (r, rotate-found now (suc n) d r e, k)
  rule-step P now n r keep ih none e [] q v h k = absurd (omega (arith, ap length q))
  rule-step P now n r keep ih none e (topic ∷ topics) q v h k =
      let v' : (t : Text) → contains t (topic ∷ topics) ≡ present (lookup t r.consumers) =
        λ t. ap (contains t) (sym q) ∙ v t in
      let (c, found) = head-present topic topics r v' in
      let (r', done, k') =
        ih (served now topic topics c r) (served-IsRotating now topic topics c r v')
          (rw (served-existing_topics now topic topics c r) omega
            (arith, length-append topics (topic ∷ []), ap length q))
          (keep topic topics c e q found) in
      (r', rotate-served now n topic topics c r e q found ∙ done, k')

  -- What every turn keeps, the rotation keeps.
  pub rotate-keeps :
      (P : Rotation E → Type 0) (now n : ℕ)
      → ((r : Rotation E) (topic : Text) (topics : List Text) (c : Member E)
          → r.result ≡ none
          → r.existing_topics ≡ topic ∷ topics
          → lookup topic r.consumers ≡ some c
          → P r
          → P (served now topic topics c r))
      → (r : Rotation E) → IsRotating r
      → n ≤ length r.existing_topics
      → P r
      → (r' : Rotation E) × (rotate now n r ≡ some r') × P r'
  unfolding rotate
  rotate-keeps P now zero keep r v h k = (r, refl, k)
  rotate-keeps P now (suc n) keep r v h k =
      rule-step P now n r (λ topic topics c e q found. keep r topic topics c e q found k)
        (λ r' v' h' k'. rotate-keeps P now n keep r' v' h' k') r.result refl r.existing_topics refl
        v h k

  -- What the loop has come to when it ends without a panic and reports nothing.
  abbrev pub Ends : Option (Rotation E) → Type 0
  Ends o = (r : Rotation E) × (o ≡ some r) × IsRotating r × (r.missing ≡ [])

  -- With rounds for the queue at most, it ends so.
  pub rotate-IsRotating :
      (now n : ℕ) (r : Rotation E)
      → IsRotating r
      → n ≤ length r.existing_topics
      → r.missing ≡ []
      → Ends (rotate now n r)
  rotate-IsRotating now n r v h m =
      let (r', done, k) =
        rotate-keeps (λ r. IsRotating r × (r.missing ≡ [])) now n
          (λ r topic topics c e q found k. (
            served-IsRotating now topic topics c r (λ t. ap (contains t) (sym q) ∙ k.0 t),
            served-missing now topic topics c r ∙ k.1,
          ))
          r v h (v, m) in
      (r', done, k.0, k.1)
