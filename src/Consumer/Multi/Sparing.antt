-- ===== src/Consumer/Multi/Sparing.antt =====
-- An update makes no consumer for a topic that it knows, so it leaves that topic's consumer alone.
use pulsar_rdg_rs.Prelude.{
  ◌≡◌, ◌>>=◌, true, false, Result, ok, List, [], ◌∷◌, arith, Bool-cases, bind_parts, subst, inl,
  inr,
}
use pulsar_rdg_rs.Prelude.Equals.{text_eq}
use pulsar_rdg_rs.Prelude.Members.{contains}
use pulsar_rdg_rs.Bytes.{Text}
use pulsar_rdg_rs.Manager.{BrokerAddress}
use pulsar_rdg_rs.Partitions.{try_join_all, lookup_partitioned_topic}
use pulsar_rdg_rs.Consumer.Multi.{Member, Update}
use pulsar_rdg_rs.Consumer.Multi.Updating.{unknown_to, flatten, wanted, Answers, created}

module _ (E : Type 0) (t : Text) where
  abbrev Others : List (Text × BrokerAddress) → Type 0
  Others [] = Unit
  Others ((topic, address) ∷ ts) = (text_eq.beq topic t ≡ false) × Others ts

  -- None of the consumers is one for the topic.
  abbrev pub AllOther : List (Text × Member E) → Type 0
  AllOther [] = Unit
  AllOther ((topic, c) ∷ cs) = (text_eq.beq topic t ≡ false) × AllOther cs

  unknown_to-Others :
      (existing : List Text) (ts : List (Text × BrokerAddress))
      → contains t existing ≡ true
      → Others (unknown_to existing ts)
  unknown_to-Others existing [] h = tt
  unknown_to-Others existing ((topic, address) ∷ ts) h =
      let rest = unknown_to-Others existing ts h in
      elim (Bool-cases (contains topic existing)) [
        | inl old ↦ rw old rest
        | inr fresh ↦ rw fresh (ground (arith, text_eq.beq_iff topic t), rest)
      ]

  -- The consumers that are made for some topics.
  abbrev new_consumer : Answers E → Text × BrokerAddress → Result E (Text × Member E)
  new_consumer a (topic, address) = a.new topic address >>= λ c. ok (topic, c)

  consumers-AllOther :
      (a : Answers E) (ts : List (Text × BrokerAddress)) (cs : List (Text × Member E))
      → Others ts
      → try_join_all (new_consumer a) ts ≡ ok cs
      → AllOther cs
  consumers-AllOther a [] [] o h = tt
  consumers-AllOther a [] (c ∷ cs) o h = absurd (cc)
  consumers-AllOther a ((topic, address) ∷ ts) cs o h =
      let (c, made, h') = bind_parts (new_consumer a (topic, address)) _ h in
      let (cs', others, same) = bind_parts (try_join_all (new_consumer a) ts) _ h' in
      let (c', new, pair) = bind_parts (a.new topic address) _ made in
      let whole : (topic, c') ∷ cs' ≡ cs = cc in
      subst AllOther whole (o.0, consumers-AllOther a ts cs' o.1 others)

  pub created-AllOther :
      (a : Answers E) (u : Update) (cs : List (Text × Member E))
      → contains t u.existing_topics ≡ true
      → created a u ≡ ok cs
      → AllOther cs
  unfolding created
  created-AllOther a u cs k h =
      let (topics, w, h') = bind_parts (wanted a u.topic_regex u.topics) _ h in
      let (found, f, h'') =
        bind_parts
          (try_join_all (λ topic. lookup_partitioned_topic (a.number topic) a.lookup_topic topic)
            topics)
          _ h' in
      consumers-AllOther a (unknown_to u.existing_topics (flatten found)) cs
        (unknown_to-Others u.existing_topics (flatten found) k) h''
