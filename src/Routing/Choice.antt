-- ===== src/Routing/Choice.antt =====
-- Which partition `choose_partition` picks.
use mathlib.Core.Path.{ap₂}
use native.Mathlib.Nat.{mod-add-mod, mod-eq_of_lt, mod_self}
use pulsar_rdg_rs.Prelude.{
  ℕ, zero, suc, ◌+◌, ◌%◌, ◌<◌, ◌≡◌, refl, ap, sym, ◌∙◌, Option, none, some, length, arith,
  get_elem?, get_elem?-lt, leb, leb→le, Bool-cases, inl, inr, if◌then◌else◌,
}
use pulsar_rdg_rs.Bytes.{Bytes, Text}
use pulsar_rdg_rs.Producer.Message.{Base64, Message}
use pulsar_rdg_rs.Routing.{
  RoutingPolicy, round_robin, single, custom, PartitionedProducer, message_key,
  get_next_round_robin_producer, compute_partition_index_for_key, hash_routed_key, by_key,
  by_policy, choose_partition, route_by_key,
}
use pulsar_rdg_rs.Routing.Hashing.{compute_partition_index_for_key-lt}

abbrev pub IsCustom : Option RoutingPolicy → Type 0
IsCustom (some (custom policy)) = Unit
IsCustom _ = ⊥

-- There is a partition, and the index of the last one used is in range.
pub record IsUsable (p : PartitionedProducer) : Type 0 where
  pub some_producer : 0 < length p.producers
  pub in_range : p.last_used_producer_index < length p.producers

-- `k` turns of the round robin.
abbrev pub turns : ℕ → PartitionedProducer → PartitionedProducer
turns zero p = p
turns (suc k) p = (get_next_round_robin_producer (turns k p)).1

next_index : (n r : ℕ) → r < n → (if leb n (r + 1) then 0 else r + 1) ≡ (r + 1) % n
next_index n r h = elim (Bool-cases (leb n (r + 1))) [
  | inl e ↦ rw e (go (omega (arith, leb→le n (r + 1) e)))
  | inr e ↦ rw e (sym (mod-eq_of_lt (ground arith)))
]
  where
    go : n ≡ r + 1 → 0 ≡ (r + 1) % n
    go q = rw (← q) (sym (mod_self n))

turns-index :
    (k : ℕ) (p : PartitionedProducer)
    → IsUsable p
    → ((turns k p).producers ≡ p.producers)
      × ((turns k p).last_used_producer_index
          ≡ (p.last_used_producer_index + k) % length p.producers)
unfolding get_next_round_robin_producer
turns-index zero p u = (refl, grind arith)
turns-index (suc k) p u =
    let (same, index) = turns-index k p u in
    let i = p.last_used_producer_index in
    let n = length p.producers in
    (
      same,
      rw (ap length same, index)
          (next_index n ((i + k) % n) (omega (arith, u.some_producer))
            ∙ mod-add-mod (i + k) n 1
            ∙ ap (λ t. t % n) (omega arith)),
    )

-- From any usable state, the sends that the round robin routes go to the partitions in turn: the
-- k-th of them to the partition k places after the last one used, counted around the end.
pub turns-get_elem? :
    (k : ℕ) (p : PartitionedProducer)
    → IsUsable p
    → (get_next_round_robin_producer (turns k p)).0
      ≡ get_elem? p.producers ((p.last_used_producer_index + suc k) % length p.producers)
unfolding get_next_round_robin_producer
turns-get_elem? k p u =
    let (same, index) = turns-index (suc k) p u in ap₂ get_elem? (turns-index k p u).0 index

keyed :
    (b64 : Base64) (murmur3_32 : Bytes → ℕ) (p : PartitionedProducer) (m : Message) (key : Text)
    (policy : Option RoutingPolicy)
    → ¬ IsCustom policy
    → message_key b64 m.partition_key ≡ some key
    → by_key murmur3_32 p m (hash_routed_key b64 policy m) ≡ route_by_key murmur3_32 p key
unfolding by_key hash_routed_key
keyed b64 murmur3_32 p m key (some (custom policy)) n e = absurd (n tt)
keyed b64 murmur3_32 p m key (some round_robin) n e = rw e
keyed b64 murmur3_32 p m key (some single) n e = rw e
keyed b64 murmur3_32 p m key none n e = rw e

-- Unless the user routes by a policy of their own, a message with a key goes to a partition that
-- depends on the key, the partitions and the hashing scheme alone: two producers that agree on
-- these choose the same one, whatever their policies and whatever they sent before, and neither
-- choice counts as a turn of the round robin.
pub choose_partition-keyed :
    (b64 : Base64) (murmur3_32 : Bytes → ℕ) (p q : PartitionedProducer) (m n : Message) (key : Text)
    → 0 < length p.producers
    → ¬ IsCustom p.routing_policy
    → ¬ IsCustom q.routing_policy
    → q.producers ≡ p.producers
    → q.hashing_scheme ≡ p.hashing_scheme
    → message_key b64 m.partition_key ≡ some key
    → message_key b64 n.partition_key ≡ some key
    → (t : Text) × (choose_partition b64 murmur3_32 p m ≡ (some t, p))
      × (choose_partition b64 murmur3_32 q n ≡ (some t, q))
unfolding choose_partition route_by_key
choose_partition-keyed b64 murmur3_32 p q m n key h pc qc same scheme em en =
    let i = compute_partition_index_for_key murmur3_32 key (length p.producers) p.hashing_scheme in
    let (t, e) =
      get_elem?-lt p.producers i (
        compute_partition_index_for_key-lt murmur3_32 key (length p.producers) p.hashing_scheme
          h) in
    (
      t,
      keyed b64 murmur3_32 p m key p.routing_policy pc em ∙ ap (λ o. (o, p)) e,
      keyed b64 murmur3_32 q n key q.routing_policy qc en
          ∙ ap (λ o. (o, q))
              (ap₂
                  (λ ps s.
                    get_elem? ps (compute_partition_index_for_key murmur3_32 key (length ps) s))
                  same scheme
                ∙ e),
    )

next-IsUsable :
    (p : PartitionedProducer)
    → IsUsable p
    → (t : Text) × ((get_next_round_robin_producer p).0 ≡ some t)
      × IsUsable (get_next_round_robin_producer p).1
next-IsUsable p u =
    let (same, index) = turns-index 1 p u in
    let i = (p.last_used_producer_index + 1) % length p.producers in
    let (t, e) = get_elem?-lt p.producers i (omega (arith, u.some_producer)) in
    (
      t,
      turns-get_elem? 0 p u ∙ e,
      record {
        some_producer = omega (arith, ap length same, u.some_producer);
        in_range = omega (arith, ap length same, index, u.some_producer);
      },
    )

by_policy-IsUsable :
    (p : PartitionedProducer) (m : Message) (policy : Option RoutingPolicy)
    → IsUsable p
    → ¬ IsCustom policy
    → (t : Text) × ((by_policy p m policy).0 ≡ some t) × IsUsable (by_policy p m policy).1
unfolding by_policy
by_policy-IsUsable p m (some single) u n =
    let (t, e) = get_elem?-lt p.producers p.last_used_producer_index u.in_range in (t, e, u)
by_policy-IsUsable p m (some (custom policy)) u n = absurd (n tt)
by_policy-IsUsable p m (some round_robin) u n = next-IsUsable p u
by_policy-IsUsable p m none u n = next-IsUsable p u

-- Unless the policy is the user's own, a usable producer always has a partition for a message,
-- with no panic, and stays usable.
pub choose_partition-IsUsable :
    (b64 : Base64) (murmur3_32 : Bytes → ℕ) (p : PartitionedProducer) (m : Message)
    → IsUsable p
    → ¬ IsCustom p.routing_policy
    → (t : Text) × ((choose_partition b64 murmur3_32 p m).0 ≡ some t)
      × IsUsable (choose_partition b64 murmur3_32 p m).1
unfolding choose_partition
choose_partition-IsUsable b64 murmur3_32 p m u n = go (hash_routed_key b64 p.routing_policy m)
  where
    go :
        (o : Option Text)
        → (t : Text) × ((by_key murmur3_32 p m o).0 ≡ some t) × IsUsable (by_key murmur3_32 p m o).1
    go (some key) =
        let (t, e) = get_elem?-lt p.producers _ (
          compute_partition_index_for_key-lt murmur3_32 key (length p.producers) p.hashing_scheme
            u.some_producer) in
        (t, unfold by_key route_by_key in e, unfold by_key route_by_key in u)
    go none = unfold by_key in by_policy-IsUsable p m p.routing_policy u n
