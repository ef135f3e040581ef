-- ===== src/Partitions/Fresh.antt =====
-- A producer of a partitioned topic that starts afresh, and one that has been refreshed.
use pulsar_rdg_rs.Prelude.{
  ℕ, suc, ◌^◌, ◌≤◌, ◌≡◌, ◌≢◌, refl, ap, ◌∙◌, true, false, List, [], ◌∷◌, ◌++◌, map, ok, Result,
  get_elem?, err, length, length-append, arith, Bool-cases, inl, inr, map_err, ◌>>=◌,
}
use pulsar_rdg_rs.Prelude.Equals.{text_eq}
use pulsar_rdg_rs.Bytes.{Bytes, Text}
use pulsar_rdg_rs.Decimal.{digits}
use pulsar_rdg_rs.Manager.{BrokerAddress}
use pulsar_rdg_rs.Routing.{PartitionedProducer, route_by_key, compute_partition_index_for_key}
use pulsar_rdg_rs.Partitions.{
  partition_name, partition_infix, sort_key, sort_by_key, range, start_producers,
  lookup_partitioned_topic,
}
use pulsar_rdg_rs.Partitions.Building.{
  ProducerBuilder, client_failed, partitioned, first_differs, build_from, build, unknown,
  on_created, on_added, on_found, is_due, refresh_partitions,
}
use pulsar_rdg_rs.Partitions.Sorting.{IsOrdered}
use pulsar_rdg_rs.Partitions.Ranges.{count-range}
use pulsar_rdg_rs.Partitions.Missing.{IsPart}
use pulsar_rdg_rs.Partitions.Named.{found}
use pulsar_rdg_rs.Partitions.Growth.{
  starts, lookup-found, start_producers-found, sort-range, refresh_partitions-range,
}

-- The producer that is built for `n` partitions.
abbrev pub fresh : ProducerBuilder → (ℕ → ℕ) → ℕ → ℕ → PartitionedProducer
fresh b random now n =
    let producers = map (partition_name b.topic) (range 0 n) in
    record {
      producers = producers;
      last_used_producer_index = random (length producers);
      topic = b.topic;
      routing_policy = b.routing_policy;
      hashing_scheme = b.hashing_scheme;
      partition_refresh = b.partition_refresh;
      last_partition_check = now;
    }

partition_name-differs : (topic : Text) (n : ℕ) → text_eq.beq (partition_name topic n) topic ≡ false
unfolding partition_name
partition_name-differs topic n = elim (Bool-cases (text_eq.beq (partition_name topic n) topic)) [
  | inl e ↦
      let same = ap length ((text_eq.beq_iff (partition_name topic n) topic).0 e) in
      absurd (omega (arith, same, length-append topic (partition_infix ++ digits 20 n)))
  | inr e ↦ e
]

module _ {E : Type 0} (start : Text → BrokerAddress → Result E (Unit {0})) where
  on_created-hashing_scheme :
      (p : PartitionedProducer) (r : Result E (List Text))
      → (on_created p r).hashing_scheme ≡ p.hashing_scheme
  unfolding on_created
  on_created-hashing_scheme p (ok created) = refl
  on_created-hashing_scheme p (err e) = refl

  on_added-hashing_scheme :
      (p : PartitionedProducer) (added : List (Text × BrokerAddress))
      → (on_added p start added).hashing_scheme ≡ p.hashing_scheme
  unfolding on_added
  on_added-hashing_scheme p [] = refl
  on_added-hashing_scheme p (a ∷ added) =
      on_created-hashing_scheme p (start_producers start (a ∷ added))

  on_found-hashing_scheme :
      (p : PartitionedProducer) (found : Result E (List (Text × BrokerAddress)))
      → (on_found p start found).hashing_scheme ≡ p.hashing_scheme
  unfolding on_found
  on_found-hashing_scheme p (ok found) = on_added-hashing_scheme p (unknown p.producers found)
  on_found-hashing_scheme p (err e) = refl

  refresh_partitions-hashing_scheme :
      (now : ℕ) (found : Result E (List (Text × BrokerAddress))) (p : PartitionedProducer)
      → (refresh_partitions now found start p).hashing_scheme ≡ p.hashing_scheme
  unfolding refresh_partitions
  refresh_partitions-hashing_scheme now found p = elim (Bool-cases (is_due now p)) [
    | inl e ↦ rw e (on_found-hashing_scheme (record p { last_partition_check = now }) found)
    | inr e ↦ rw e refl
  ]

route_by_key-same :
    (murmur3_32 : Bytes → ℕ) (p q : PartitionedProducer) (key : Text)
    → p.producers ≡ q.producers
    → p.hashing_scheme ≡ q.hashing_scheme
    → (route_by_key murmur3_32 p key).0 ≡ (route_by_key murmur3_32 q key).0
unfolding route_by_key
route_by_key-same murmur3_32 p q key e h =
    ap
      (λ ps.
        get_elem? ps (compute_partition_index_for_key murmur3_32 key (length ps) p.hashing_scheme))
      e
    ∙ ap
        (λ s.
          get_elem? q.producers
            (compute_partition_index_for_key murmur3_32 key (length q.producers) s))
        h

-- What the lookup answers for `n` partitions.
abbrev pub answer :
    {E : Type 0}
    → ProducerBuilder
    → (Text → BrokerAddress)
    → ℕ
    → Result E (List (Text × BrokerAddress))
answer b address n = lookup_partitioned_topic (ok n) (λ t. ok (address t)) b.topic

module _ (E : Type 0) (b : ProducerBuilder) (some_text : b.topic ≢ [])
    (address : Text → BrokerAddress) where
  build-fresh :
      (random : ℕ → ℕ) (now m : ℕ)
      → suc m ≤ 2 ^ 64
      → build b (answer {E = E} b address (suc m)) starts random now
        ≡ ok (partitioned (fresh b random now (suc m)))
  unfolding build build_from
  build-fresh random now m l =
      let all = map (found b.topic address) (range 0 (suc m)) in
      ap (λ f. build b f starts random now) (lookup-found {E = E} b.topic address m)
      ∙ ap
          (λ (r : Result E (List Text)). map_err client_failed r >>= λ producers.
            build_from b random now (first_differs b.topic all) (sort_by_key sort_key producers))
          (start_producers-found {E = E} b.topic address (range 0 (suc m)))
      ∙ ap (build_from b random now (first_differs b.topic all))
          (sort-range b.topic some_text (suc m) (range 0 (suc m)) l (λ x. count-range x 0 (suc m)))
      ∙ rw (partition_name-differs b.topic 0) refl

  -- Let the topic's name not be empty, let the topic have `m + 1` partitions, as many as a usize
  -- counts at most, let every lookup and start of a producer succeed, and let the producer have
  -- producers for some of the partitions, in order and each once, the builder's hashing scheme, and
  -- a check that is due. Then a client that builds a producer now gets one with all partitions, and
  -- the refreshed producer has the same producers in the same order, and routes every key to the
  -- same partition.
  pub refresh_partitions-fresh :
      (random : ℕ → ℕ) (now m : ℕ) (p : PartitionedProducer) (known : List ℕ)
      (murmur3_32 : Bytes → ℕ) (key : Text)
      → suc m ≤ 2 ^ 64
      → p.producers ≡ map (partition_name b.topic) known
      → IsOrdered known
      → IsPart (suc m) known
      → is_due now p ≡ true
      → p.hashing_scheme ≡ b.hashing_scheme
      → (build b (answer {E = E} b address (suc m)) starts random now
          ≡ ok (partitioned (fresh b random now (suc m))))
        × ((refresh_partitions now (answer {E = E} b address (suc m)) starts p).producers
            ≡ (fresh b random now (suc m)).producers)
        × ((route_by_key murmur3_32
              (refresh_partitions now (answer {E = E} b address (suc m)) starts p)
              key).0
            ≡ (route_by_key murmur3_32 (fresh b random now (suc m)) key).0)
  refresh_partitions-fresh random now m p known murmur3_32 key l e o part due h =
      let producers =
        refresh_partitions-range b.topic some_text E address m now p known l e o part due in
      let hashing =
        refresh_partitions-hashing_scheme {E = E} starts now (answer {E = E} b address (suc m)) p in
      (
        build-fresh random now m l,
        producers,
        route_by_key-same murmur3_32 _ (fresh b random now (suc m)) key producers (hashing ∙ h),
      )
