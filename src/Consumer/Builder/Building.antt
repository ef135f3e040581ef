-- ===== src/Consumer/Builder/Building.antt =====
-- The consumers that a builder builds, and the reader that it cannot build.
use pulsar_rdg_rs.Prelude.{
  ◌≡◌, refl, ap, Bool, true, false, Option, none, some, List, [], ◌∷◌, Result, ok, err, map_err,
  bind_parts, arith, subst,
}
use pulsar_rdg_rs.Prelude.Maps.{Map, lookup}
use pulsar_rdg_rs.Prelude.Equals.{text_eq}
use pulsar_rdg_rs.Prelude.Members.{contains}
use pulsar_rdg_rs.Bytes.{Text}
use pulsar_rdg_rs.Consumer.Multi.{Member, MultiTopicConsumer, Update, add_consumers, update_topics}
use pulsar_rdg_rs.Consumer.Multi.Updating.{Answers, created}
use pulsar_rdg_rs.Consumer.Multi.Rotating.{present, IsValid}
use pulsar_rdg_rs.Consumer.Multi.Removing.{add_consumers-IsValid}
use pulsar_rdg_rs.Consumer.Multi.Running.{Event, Run, run}
use pulsar_rdg_rs.Consumer.Multi.Present.{run-IsValid}
use pulsar_rdg_rs.Consumer.Builder.{
  ConsumerBuilder, Drawn, BuilderError, client_failed, is_none, requested, look_up, validate,
  start_consumers, collect, keys, can_gain_partitions, InnerConsumer, multi, multi_of, first_update,
  with_regex, single_or, build_consumer, into_reader,
}

module _ (E : Type 0) where
  contains-keys :
      (t : Text) (cs : Map Text (Member E)) → contains t (keys cs) ≡ present (lookup t cs)
  unfolding lookup
  contains-keys t [] = refl
  contains-keys t ((topic, c) ∷ cs) = ground (arith, contains-keys t cs)

  multi_of-IsValid :
      (b : ConsumerBuilder) (consumers : List (Text × Member E)) → IsValid (multi_of b consumers)
  multi_of-IsValid b consumers t = contains-keys t (collect consumers [])

  first_update-IsValid :
      (a : Answers E) (u : Option Update) (m m' : MultiTopicConsumer E)
      → IsValid m
      → first_update a u m ≡ ok m'
      → IsValid m'
  first_update-IsValid a none m m' v h = let same : m ≡ m' = cc in subst IsValid same v
  first_update-IsValid a (some u) m m' v h =
      let (cs, made, h') = bind_parts (created a u) _ h in
      let same : add_consumers cs (record m { new_consumers = none }) ≡ m' = cc in
      subst IsValid same (add_consumers-IsValid E cs (record m { new_consumers = none }) v)

  with_regex-IsValid :
      (a : Answers E) (regex : Option (Text → Bool)) (m m' : MultiTopicConsumer E)
      → IsValid m
      → with_regex a regex m ≡ ok m'
      → IsValid m'
  unfolding update_topics
  with_regex-IsValid a none m m' v h = let same : m ≡ m' = cc in subst IsValid same v
  with_regex-IsValid a (some is_match) m m' v h =
      first_update-IsValid a (update_topics m).new_consumers (update_topics m) m' v h

  single_or-multi :
      (gains : Bool) (consumers : List (Text × Member E)) (rest : Result E (InnerConsumer E))
      (m : MultiTopicConsumer E)
      → single_or gains consumers rest ≡ ok (multi m)
      → rest ≡ ok (multi m)
  single_or-multi true [] rest m h = h
  single_or-multi true (x ∷ xs) rest m h = h
  single_or-multi false [] rest m h = h
  single_or-multi false ((topic, c) ∷ []) rest m h = absurd (cc)
  single_or-multi false (x ∷ y ∷ xs) rest m h = h

  map_err-ok :
      (r : Result E (InnerConsumer E)) (i : InnerConsumer E)
      → map_err {F = BuilderError E} client_failed r ≡ ok i
      → r ≡ ok i
  map_err-ok (ok j) i h = cc
  map_err-ok (err e) i h = absurd (cc)

  build_consumer-IsValid :
      (b : ConsumerBuilder) (drawn : Drawn) (a : Answers E) (m : MultiTopicConsumer E)
      → build_consumer b drawn a ≡ ok (multi m)
      → IsValid m
  unfolding build_consumer
  build_consumer-IsValid b drawn a m h =
      let ((config, topics), valid, h') = bind_parts (validate b drawn a) _ h in
      let (consumers, made, h'') =
        bind_parts (start_consumers a topics) _ (map_err-ok _ (multi m) h') in
      let (m', updated, same) =
        bind_parts (with_regex a b.topic_regex (multi_of b consumers)) _
          (single_or-multi (can_gain_partitions b consumers) consumers _ m h'') in
      let same' : m' ≡ m = cc in
      subst IsValid same' (
        with_regex-IsValid a b.topic_regex (multi_of b consumers) m' (multi_of-IsValid b consumers)
          updated)

  -- A consumer of several topics that a builder has built runs through any events without a panic
  -- and without ever reporting a topic that has no consumer, and always polls exactly the topics
  -- that it has consumers for.
  pub build_consumer-runs :
      (b : ConsumerBuilder) (drawn : Drawn) (a : Answers E) (m : MultiTopicConsumer E)
      (es : List (Event E))
      → build_consumer b drawn a ≡ ok (multi m)
      → (r : Run E) × (run es record { state = m; delivered = []; missing = [] } ≡ some r)
        × IsValid r.state
        × (r.missing ≡ [])
  build_consumer-runs b drawn a m es h =
      run-IsValid E es record { state = m; delivered = []; missing = [] }
        (build_consumer-IsValid b drawn a m h) refl

  look_up-none : (a : Answers E) (topics : List Text) → topics ≡ [] → look_up a topics ≡ ok []
  unfolding look_up
  look_up-none a topics h = ap (look_up a) h

  -- A builder that was given a regex and no topics, or an empty list of topics, builds no reader
  -- and no error: its last step takes a topic from an empty list, which panics, whatever the client
  -- answers.
  pub into_reader-panics :
      (b : ConsumerBuilder) (drawn : Drawn) (a : Answers E)
      → requested b ≡ []
      → is_none b.topic_regex ≡ false
      → into_reader b drawn a ≡ none
  unfolding into_reader validate
  into_reader-panics b drawn a t r =
      let looked : look_up a (requested b) ≡ ok [] = look_up-none a (requested b) t in
      ground (arith, looked, r)
