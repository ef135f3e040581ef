-- ===== src/Partitions/Growth.antt =====
-- A producer that notices new partitions is then like one that starts afresh.
use mathlib.Core.List.{append-nil, map-append}
use pulsar_rdg_rs.Prelude.{
  ℕ, suc, ◌^◌, ◌≤◌, ◌≡◌, ◌≢◌, refl, sym, ap, ◌∙◌, true, List, [], ◌∷◌, ◌++◌, map, ok, Result, arith,
}
use pulsar_rdg_rs.Bytes.{Text}
use pulsar_rdg_rs.Manager.{BrokerAddress}
use pulsar_rdg_rs.Routing.{PartitionedProducer}
use pulsar_rdg_rs.Partitions.{
  partition_name, sort_key, sort_by_key, range, start_producers, topics_of,
  lookup_partitioned_topic,
}
use pulsar_rdg_rs.Partitions.Building.{
  unknown, on_created, on_added, on_found, is_due, refresh_partitions,
}
use pulsar_rdg_rs.Partitions.Sorting.{count, within, IsOrdered}
use pulsar_rdg_rs.Partitions.Ranges.{count-range, IsOrdered-range}
use pulsar_rdg_rs.Partitions.Missing.{
  missing, IsPart, IsPart-AllBelow, count-completed, sort_by_key-range,
}
use pulsar_rdg_rs.Partitions.Named.{
  try_join_all-ok, sort_by_key-map, partition_name-AllKeyed, found, unknown-found,
}

-- Every lookup of an address and every start of a producer succeeds.
abbrev pub starts : {E : Type 0} → Text → BrokerAddress → Result E (Unit {0})
starts topic address = ok tt

map-map :
    {A B C : Type 0} (f : A → B) (g : B → C) (xs : List A)
    → map g (map f xs) ≡ map (λ a. g (f a)) xs
map-map f g [] = refl
map-map f g (x ∷ xs) = ap (λ ys. g (f x) ∷ ys) (map-map f g xs)

module _ {E : Type 0} (topic : Text) (address : Text → BrokerAddress) where
  pub lookup-found :
      (m : ℕ)
      → lookup_partitioned_topic {E = E} (ok (suc m)) (λ t. ok (address t)) topic
        ≡ ok (map (found topic address) (range 0 (suc m)))
  unfolding lookup_partitioned_topic topics_of
  lookup-found m =
      try_join_all-ok (λ t. (t, address t)) (map (partition_name topic) (range 0 (suc m)))
      ∙ ap ok (map-map (partition_name topic) (λ t. (t, address t)) (range 0 (suc m)))

  pub start_producers-found :
      (xs : List ℕ)
      → start_producers {E = E} starts (map (found topic address) xs)
        ≡ ok (map (partition_name topic) xs)
  start_producers-found xs =
      try_join_all-ok (λ (a : Text × BrokerAddress). a.0) (map (found topic address) xs)
      ∙ ap ok (map-map (found topic address) (λ a. a.0) xs)

module _ (topic : Text) (some_text : topic ≢ []) where
  pub sort-range :
      (m : ℕ) (xs : List ℕ)
      → m ≤ 2 ^ 64
      → ((x : ℕ) → count x xs ≡ within 0 m x)
      → sort_by_key sort_key (map (partition_name topic) xs)
        ≡ map (partition_name topic) (range 0 m)
  sort-range m xs l h =
      sort_by_key-map sort_key (partition_name topic) xs
      ∙ ap (map (partition_name topic)) (
          sort_by_key-range (λ i. sort_key (partition_name topic i)) m xs
            (partition_name-AllKeyed topic some_text m xs l
              (IsPart-AllBelow m xs (λ x. let e = h x in omega (arith, e))))
            h)

  on_added-range :
      (E : Type 0) (address : Text → BrokerAddress) (m : ℕ) (p : PartitionedProducer)
      (known ms : List ℕ)
      → m ≤ 2 ^ 64
      → p.producers ≡ map (partition_name topic) known
      → IsOrdered known
      → ((x : ℕ) → count x (known ++ ms) ≡ within 0 m x)
      → (on_added {E = E} p starts (map (found topic address) ms)).producers
        ≡ map (partition_name topic) (range 0 m)
  unfolding on_added on_created
  on_added-range E address m p known [] l e o h =
      e
      ∙ ap (map (partition_name topic))
          (IsOrdered-range 0 m known o (λ x. ap (count x) (sym (append-nil known)) ∙ h x))
  on_added-range E address m p known (y ∷ ys) l e o h =
      ap (λ r. (on_created p r).producers) (start_producers-found {E = E} topic address (y ∷ ys))
      ∙ ap (λ ps. sort_by_key sort_key (ps ++ map (partition_name topic) (y ∷ ys))) e
      ∙ ap (sort_by_key sort_key) (sym (map-append (partition_name topic) known (y ∷ ys)))
      ∙ sort-range m (known ++ (y ∷ ys)) l h

  -- The topic has `m + 1` partitions now, and the producer has some of them, in order.
  pub refresh_partitions-range :
      (E : Type 0) (address : Text → BrokerAddress) (m now : ℕ) (p : PartitionedProducer)
      (known : List ℕ)
      → suc m ≤ 2 ^ 64
      → p.producers ≡ map (partition_name topic) known
      → IsOrdered known
      → IsPart (suc m) known
      → is_due now p ≡ true
      → (refresh_partitions {E = E} now
          (lookup_partitioned_topic (ok (suc m)) (λ t. ok (address t)) topic)
          starts
          p).producers
        ≡ map (partition_name topic) (range 0 (suc m))
  unfolding refresh_partitions on_found
  refresh_partitions-range E address m now p known l e o part due =
      let q = record p { last_partition_check = now } in
      let all = range 0 (suc m) in
      rw due (
        ap (λ r. (on_found q starts r).producers) (lookup-found {E = E} topic address m)
        ∙ ap
            (λ ps.
              (on_added {E = E} q starts (unknown ps (map (found topic address) all))).producers)
            e
        ∙ ap (λ f. (on_added {E = E} q starts f).producers)
            (unknown-found topic some_text address (suc m) known all l
              (IsPart-AllBelow (suc m) known part)
              (IsPart-AllBelow (suc m) all
                (λ x. let c = count-range x 0 (suc m) in omega (arith, c))))
        ∙ on_added-range E address (suc m) q known (missing known all) l e o
            (λ x. count-completed (suc m) x known part))
