-- ===== src/Consumer/Multi/Doubled.antt =====
-- A topic that an update comes upon twice is subscribed to twice.
use pulsar_rdg_rs.Prelude.{
  ◌+◌, ℕ, ◌≤◌, ◌≡◌, ◌>>=◌, refl, sym, ap, ◌∙◌, Bool, true, false, none, some, Result, ok, List, [],
  ◌∷◌, ◌++◌, arith, Bool-cases, bind_parts, subst, if◌then◌else◌, inl, inr,
}
use pulsar_rdg_rs.Prelude.Equals.{text_eq}
use pulsar_rdg_rs.Prelude.Members.{contains}
use pulsar_rdg_rs.Bytes.{Text}
use pulsar_rdg_rs.Manager.{BrokerAddress}
use pulsar_rdg_rs.Partitions.{try_join_all, lookup_partitioned_topic, topics_of}
use pulsar_rdg_rs.Consumer.Multi.{Member, MultiTopicConsumer, add_consumer, add_consumers, Update}
use pulsar_rdg_rs.Consumer.Multi.Updating.{
  unknown_to, matching, flatten, wanted, Answers, take_new, created, on_new_consumers, on_future,
}

abbrev pub count : Text → List Text → ℕ
count t [] = 0
count t (x ∷ xs) = let rest = count t xs in if text_eq.beq x t then rest + 1 else rest

abbrev pub names : {A : Type 0} → List (Text × A) → List Text
names [] = []
names ((topic, a) ∷ xs) = topic ∷ names xs

count-append : (t : Text) (xs ys : List Text) → count t (xs ++ ys) ≡ count t xs + count t ys
count-append t [] ys = omega arith
count-append t (x ∷ xs) ys = ground (arith, count-append t xs ys)

contains-count : (t : Text) (xs : List Text) → contains t xs ≡ true → 1 ≤ count t xs
contains-count t [] h = absurd (cc)
contains-count t (x ∷ xs) h = ground (arith, contains-count t xs)

names-append : (A : Type 0) (xs ys : List (Text × A)) → names (xs ++ ys) ≡ names xs ++ names ys
names-append A [] ys = refl
names-append A (x ∷ xs) ys = ap (◌∷◌ x.0) (names-append A xs ys)

contains-matching :
    (t : Text) (is_match : Text → Bool) (xs : List Text)
    → is_match t ≡ true
    → contains t xs ≡ true
    → contains t (matching is_match xs) ≡ true
contains-matching t is_match [] m h = absurd (cc)
contains-matching t is_match (x ∷ xs) m h =
    ground (arith, contains-matching t is_match xs m, text_eq.beq_iff x t, ap is_match)

abbrev addressed : {E : Type 0} → Answers E → Text → Result E (Text × BrokerAddress)
addressed a topic = a.lookup_topic topic >>= λ address. ok (topic, address)

module _ (E : Type 0) (t : Text) (a : Answers E) (whole : a.number t ≡ ok 0) where
  count-unknown_to :
      (existing : List Text) (ts : List (Text × BrokerAddress))
      → contains t existing ≡ false
      → count t (names (unknown_to existing ts)) ≡ count t (names ts)
  count-unknown_to existing [] h = refl
  count-unknown_to existing ((topic, address) ∷ ts) h =
      ground (arith, count-unknown_to existing ts h, text_eq.beq_iff topic t)

  abbrev new_consumer : Text × BrokerAddress → Result E (Text × Member E)
  new_consumer (topic, address) = a.new topic address >>= λ c. ok (topic, c)

  names-consumers :
      (ts : List (Text × BrokerAddress)) (cs : List (Text × Member E))
      → try_join_all new_consumer ts ≡ ok cs
      → names cs ≡ names ts
  names-consumers [] cs h = let none_made : cs ≡ [] = cc in ap names none_made
  names-consumers ((topic, address) ∷ ts) cs h =
      let (c, made, h') = bind_parts (new_consumer (topic, address)) _ h in
      let (cs', others, same) = bind_parts (try_join_all new_consumer ts) _ h' in
      let (c', new, pair) = bind_parts (a.new topic address) _ made in
      let all : cs ≡ (topic, c') ∷ cs' = cc in
      ap names all ∙ ap (◌∷◌ topic) (names-consumers ts cs' others)

  lookup_of : Text → Result E (List (Text × BrokerAddress))
  unfolding lookup_partitioned_topic
  lookup_of topic = lookup_partitioned_topic (a.number topic) a.lookup_topic topic

  lookup_of-whole :
      (topic : Text) (found : List (Text × BrokerAddress))
      → text_eq.beq topic t ≡ true
      → lookup_of topic ≡ ok found
      → 1 ≤ count t (names found)
  unfolding lookup_of lookup_partitioned_topic topics_of
  lookup_of-whole topic found e h =
      let zero_partitions : a.number topic ≡ ok 0 =
        ap a.number ((text_eq.beq_iff topic t).0 e) ∙ whole in
      let (n, numbered, h') = bind_parts (a.number topic) _ h in
      let nothing : n ≡ 0 = cc (numbered, zero_partitions) in
      let alone : try_join_all (addressed a) (topic ∷ []) ≡ ok found =
        subst (λ n. try_join_all (addressed a) (topics_of topic n) ≡ ok found) nothing h' in
      let (b, looked, h'') = bind_parts (addressed a topic) _ alone in
      let (address, answered, pair) = bind_parts (a.lookup_topic topic) _ looked in
      let all : found ≡ (topic, address) ∷ [] = cc in rw (ap names all) rw e omega arith

  count-flatten :
      (topics : List Text) (found : List (List (Text × BrokerAddress)))
      → try_join_all lookup_of topics ≡ ok found
      → count t topics ≤ count t (names (flatten found))
  count-flatten [] found h = omega arith
  count-flatten (topic ∷ topics) found h =
      let (here, looked, h') = bind_parts (lookup_of topic) _ h in
      let (rest, others, same) = bind_parts (try_join_all lookup_of topics) _ h' in
      let all : found ≡ here ∷ rest = cc in
      let more = count-flatten topics rest others in
      let both : count t (names (flatten found))
          ≡ count t (names here) + count t (names (flatten rest)) =
        ap (λ (fs : List (List (Text × BrokerAddress))). count t (names (flatten fs))) all
        ∙ (ap (count t) (names-append BrokerAddress here (flatten rest))
            ∙ count-append t (names here) (names (flatten rest))) in
      elim (Bool-cases (text_eq.beq topic t)) [
        | inl e ↦ rw e omega (arith, lookup_of-whole topic here e looked, more, both)
        | inr e ↦ rw e omega (arith, more, both)
      ]

  wanted-twice :
      (is_match : Text → Bool) (requested all topics : List Text)
      → contains t requested ≡ true
      → is_match t ≡ true
      → a.get_topics_of_namespace ≡ ok all
      → contains t all ≡ true
      → wanted a (some is_match) requested ≡ ok topics
      → 2 ≤ count t topics
  wanted-twice is_match requested all topics r m g c h =
      let (all', got, h') = bind_parts a.get_topics_of_namespace _ h in
      let same : topics ≡ requested ++ matching is_match all' = cc in
      let same' : all ≡ all' = cc in
      rw same rw (count-append t requested (matching is_match all')) omega (
        arith,
        contains-count t requested r,
        contains-count t (matching is_match all')
            (contains-matching t is_match all' m (ap (contains t) (sym same') ∙ c)),
      )

  -- The consumers that an update makes for a topic that it comes upon twice.
  created-twice :
      (is_match : Text → Bool) (all : List Text) (u : Update) (cs : List (Text × Member E))
      → u.topic_regex ≡ some is_match
      → contains t u.topics ≡ true
      → is_match t ≡ true
      → a.get_topics_of_namespace ≡ ok all
      → contains t all ≡ true
      → contains t u.existing_topics ≡ false
      → created a u ≡ ok cs
      → 2 ≤ count t (names cs)
  unfolding created lookup_of
  created-twice is_match all u cs x r m g c k h =
      let (topics, w, h') = bind_parts (wanted a u.topic_regex u.topics) _ h in
      let (found, f, h'') = bind_parts (try_join_all lookup_of topics) _ h' in
      let w' : wanted a (some is_match) u.topics ≡ ok topics =
        ap (λ regex. wanted a regex u.topics) (sym x) ∙ w in
      omega (
        arith,
        wanted-twice is_match u.topics all topics r m g c w',
        count-flatten topics found f,
        ap (count t) (names-consumers (unknown_to u.existing_topics (flatten found)) cs h''),
        count-unknown_to u.existing_topics (flatten found) k,
      )

  count-add_consumers :
      (cs : List (Text × Member E)) (m : MultiTopicConsumer E)
      → count t (add_consumers cs m).existing_topics
        ≡ count t m.existing_topics + count t (names cs)
  unfolding add_consumers
  count-add_consumers [] m = omega arith
  count-add_consumers ((topic, c) ∷ cs) m =
      count-add_consumers cs (add_consumer topic c m)
      ∙ ground (arith, count-append t m.existing_topics (topic ∷ []))

  -- Let a topic without partitions be requested, be among the topics of the namespace, match the
  -- regex, and be none of those that an update knows. When the update succeeds, it makes two
  -- consumers for the topic at least, and the topic is polled twice in every round at least.
  pub take_new-doubled :
      (is_match : Text → Bool) (all : List Text) (u : Update) (cs : List (Text × Member E))
      (m : MultiTopicConsumer E)
      → m.new_consumers ≡ some u
      → u.topic_regex ≡ some is_match
      → contains t u.topics ≡ true
      → is_match t ≡ true
      → a.get_topics_of_namespace ≡ ok all
      → contains t all ≡ true
      → contains t u.existing_topics ≡ false
      → created a u ≡ ok cs
      → (2 ≤ count t (names cs)) × (2 ≤ count t (take_new (some a) m).existing_topics)
  unfolding take_new
  take_new-doubled is_match all u cs m n x r i g c k h =
      let twice = created-twice is_match all u cs x r i g c k h in
      let taken : take_new (some a) m ≡ add_consumers cs (record m { new_consumers = none }) =
        ap (λ o. on_future o (some a) m) n ∙ ap (λ o. on_new_consumers (some o) m) h in
      (
        twice,
        omega (
          arith,
          twice,
          ap (λ (m' : MultiTopicConsumer E). count t m'.existing_topics) taken,
          count-add_consumers cs (record m { new_consumers = none }),
        ),
      )
