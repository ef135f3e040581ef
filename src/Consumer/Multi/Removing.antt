-- ===== src/Consumer/Multi/Removing.antt =====
-- The consumers that remove_consumers and add_consumers leave.
use pulsar_rdg_rs.Prelude.{
  ◌≡◌, refl, none, some, List, [], ◌∷◌, arith, Option-cases, if◌then◌else◌, inl, inr,
}
use pulsar_rdg_rs.Prelude.Maps.{lookup, lookup-insert, lookup-remove}
use pulsar_rdg_rs.Prelude.Equals.{text_eq}
use pulsar_rdg_rs.Prelude.Members.{contains, without, contains-append, contains-without}
use pulsar_rdg_rs.Bytes.{Text}
use pulsar_rdg_rs.Consumer.Multi.{
  Member, MultiTopicConsumer, add_consumer, add_consumers, on_removed, remove_each,
  remove_consumers,
}
use pulsar_rdg_rs.Consumer.Multi.Rotating.{IsValid}

module _ (E : Type 0) where
  pub remove_each-existing_topics :
      (topics : List Text) (m : MultiTopicConsumer E)
      → (remove_each topics m).existing_topics ≡ m.existing_topics
  unfolding remove_each on_removed
  remove_each-existing_topics [] m = refl
  remove_each-existing_topics (topic ∷ topics) m =
      elim (lookup topic m.consumers)
        as (λ o. (remove_each topics (on_removed topic o m)).existing_topics ≡ m.existing_topics) [
          | none ↦ remove_each-existing_topics topics m
          | some c ↦ remove_each-existing_topics topics (on_removed topic (some c) m)
        ]

  pub lookup-remove_each :
      (t : Text) (topics : List Text) (m : MultiTopicConsumer E)
      → lookup t (remove_each topics m).consumers
        ≡ (if contains t topics then none else lookup t m.consumers)
  unfolding remove_each on_removed
  lookup-remove_each t [] m = refl
  lookup-remove_each t (topic ∷ topics) m = elim (Option-cases (lookup topic m.consumers)) [
    | inl e ↦
        rw (e, remove_each) ground
          (arith, e, text_eq.beq_iff topic t, lookup-remove_each t topics m)
    | inr (c, e) ↦
        rw (e, remove_each) ground
          (
            arith,
            lookup-remove topic t m.consumers,
            lookup-remove_each t topics (on_removed topic (some c) m),
          )
  ]

  pub remove_consumers-IsValid :
      (topics : List Text) (m : MultiTopicConsumer E)
      → IsValid m
      → IsValid (remove_consumers topics m)
  unfolding remove_consumers
  remove_consumers-IsValid topics m v t =
      let left : MultiTopicConsumer E = record m {
        existing_topics = without topics m.existing_topics;
      } in
      rw (remove_each-existing_topics topics left) ground
        (arith, v t, contains-without t topics m.existing_topics, lookup-remove_each t topics left)

  pub add_consumers-IsValid :
      (cs : List (Text × Member E)) (m : MultiTopicConsumer E)
      → IsValid m
      → IsValid (add_consumers cs m)
  unfolding add_consumers
  add_consumers-IsValid [] m v = v
  add_consumers-IsValid ((topic, c) ∷ cs) m v =
      add_consumers-IsValid cs (add_consumer topic c m) (λ t. ground (
        arith,
        v t,
        contains-append t m.existing_topics (topic ∷ []),
        lookup-insert topic t c m.consumers,
      ))

  pub remove_each-new_consumers :
      (topics : List Text) (m : MultiTopicConsumer E)
      → (remove_each topics m).new_consumers ≡ m.new_consumers
  unfolding remove_each on_removed
  remove_each-new_consumers [] m = refl
  remove_each-new_consumers (topic ∷ topics) m =
      elim (lookup topic m.consumers)
        as (λ o. (remove_each topics (on_removed topic o m)).new_consumers ≡ m.new_consumers) [
          | none ↦ remove_each-new_consumers topics m
          | some c ↦ remove_each-new_consumers topics (on_removed topic (some c) m)
        ]
