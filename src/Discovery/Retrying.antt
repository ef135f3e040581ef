-- ===== src/Discovery/Retrying.antt =====
-- The lookup of the number of partitions ends when the retries are limited.
use pulsar_rdg_rs.Prelude.{
  ℕ, zero, suc, ◌+◌, ◌<◌, ◌≤◌, ◌≡◌, refl, ap, ◌∙◌, true, not, Option, some, List, [], ◌∷◌, ◌++◌,
  Result, ok, err, ◌&&◌, arith, Bool-cases, inl, inr,
}
use pulsar_rdg_rs.Bytes.{Text}
use pulsar_rdg_rs.Errors.{ConnectionError}
use pulsar_rdg_rs.Discovery.{connection}
use pulsar_rdg_rs.Discovery.Lookup.{error_of, within_retry_budget}
use pulsar_rdg_rs.Partitions.{is_topic_partition_name}
use pulsar_rdg_rs.Discovery.Number.{
  CommandPartitionedTopicMetadataResponse, Options, Sender, NumberTurn, NumberEffect, asks,
  gets_base, delays, request_metadata, Asked, answered_by, on_base, on_request, is_refused,
  is_service_not_ready, NumberNext, again, done, on_metadata, on_number_asked, number_turn, Ended,
  after_effects, on_next, number_loop, with_base, lookup_number,
}

abbrev pub pauses : List NumberEffect → ℕ
pauses [] = 0
pauses (asks conn ∷ es) = pauses es
pauses (gets_base ∷ es) = pauses es
pauses (delays d ∷ es) = suc (pauses es)

pauses-append : (es fs : List NumberEffect) → pauses (es ++ fs) ≡ pauses es + pauses fs
pauses-append [] fs = omega arith
pauses-append (asks conn ∷ es) fs = pauses-append es fs
pauses-append (gets_base ∷ es) fs = pauses-append es fs
pauses-append (delays d ∷ es) fs = omega (arith, pauses-append es fs)

request_metadata-pauses :
    (o : Options) (s : Sender) (a : Result ConnectionError CommandPartitionedTopicMetadataResponse)
    → pauses (request_metadata o s a).0 ≡ 0
unfolding request_metadata
request_metadata-pauses o s a =
    elim (Bool-cases
      (not o.metadata_auto_creation_enabled && not s.supports_without_auto_creation)) [
        | inl e ↦ rw e refl
        | inr e ↦ rw e refl
      ]

answered_by-pauses :
    (s : Sender)
    (r : List NumberEffect × Result ConnectionError CommandPartitionedTopicMetadataResponse)
    → pauses (answered_by s r).0 ≡ pauses r.0
answered_by-pauses s (effects, ok res) = refl
answered_by-pauses s (effects, err e) = refl

on_base-pauses :
    (o : Options) (t : NumberTurn) (r : Result ConnectionError Sender)
    → pauses (on_base o t r).0 ≡ 0
unfolding on_base
on_base-pauses o t (ok s) =
    answered_by-pauses s (request_metadata o s t.answered_again)
    ∙ request_metadata-pauses o s t.answered_again
on_base-pauses o t (err e) = refl

on_request-pauses :
    (o : Options) (s : Sender) (t : NumberTurn)
    (r : List NumberEffect × Result ConnectionError CommandPartitionedTopicMetadataResponse)
    → pauses r.0 ≡ 0
    → pauses (on_request o s t r).0 ≡ 0
unfolding on_request
on_request-pauses o s t (effects, ok res) h = h
on_request-pauses o s t (effects, err ConnectionError.disconnected) h = omega (
  arith,
  h,
  pauses-append effects (on_base o t t.reconnected).0,
  on_base-pauses o t t.reconnected,
)
on_request-pauses o s t (effects, err _) h = h

-- A turn ends the loop with no pause, or goes on after one, and then it may be retried.
abbrev TurnIs : Options → ℕ → List NumberEffect × NumberNext → Type 0
TurnIs o k (effects, again s) = (pauses effects ≡ 1) × (within_retry_budget o.max_retries k ≡ true)
TurnIs o k (effects, done r) = pauses effects ≡ 0

on_metadata-TurnIs :
    (o : Options) (k : ℕ) (s : Sender) (res : CommandPartitionedTopicMetadataResponse)
    → TurnIs o k (on_metadata o k s res)
unfolding on_metadata
on_metadata-TurnIs o k s res = elim (Bool-cases (is_refused res.response)) [
  | inl e ↦
      elim (Bool-cases
        (is_service_not_ready (error_of res.error) && within_retry_budget o.max_retries k)) [
          | inl f ↦ rw e rw f (refl, ground (arith, f))
          | inr f ↦ rw e rw f refl
        ]
  | inr e ↦ rw e refl
]

TurnIs-more :
    (o : Options) (k : ℕ) (effects : List NumberEffect) (r : List NumberEffect × NumberNext)
    → pauses effects ≡ 0
    → TurnIs o k r
    → TurnIs o k (effects ++ r.0, r.1)
TurnIs-more o k effects (more, again s) h t =
    (omega (arith, pauses-append effects more, h, t.0), t.1)
TurnIs-more o k effects (more, done r) h t = omega (arith, pauses-append effects more, h, t)

on_number_asked-TurnIs :
    (o : Options) (k : ℕ) (a : Asked) → pauses a.0 ≡ 0 → TurnIs o k (on_number_asked o k a)
on_number_asked-TurnIs o k (effects, ok (s, res)) h =
    TurnIs-more o k effects (on_metadata o k s res) h (on_metadata-TurnIs o k s res)
on_number_asked-TurnIs o k (effects, err e) h = h

number_turn-TurnIs :
    (o : Options) (k : ℕ) (s : Sender) (t : NumberTurn) → TurnIs o k (number_turn o k s t)
unfolding number_turn
number_turn-TurnIs o k s t =
    on_number_asked-TurnIs o k (on_request o s t (request_metadata o s t.answer)) (
      on_request-pauses o s t (request_metadata o s t.answer)
        (request_metadata-pauses o s t.answer))

-- It ends with this many pauses at most.
abbrev EndsWithin : ℕ → Option Ended → Type 0
EndsWithin n o = (r : Ended) × (o ≡ some r) × (pauses r.0 ≤ n)

on_next-Ends :
    (o : Options) (m k : ℕ) (rest : Sender → Option Ended) (r : List NumberEffect × NumberNext)
    → o.max_retries ≡ some m
    → TurnIs o k r
    → (k < m → (s : Sender) → (n : ℕ) × EndsWithin n (rest s) × (k + suc n ≤ m))
    → k ≤ m
    → (n : ℕ) × EndsWithin n (on_next rest r) × (k + n ≤ m)
on_next-Ends o m k rest (effects, done r) e t ih h =
    (0, ((effects, r), refl, omega (arith, t)), omega arith)
on_next-Ends o m k rest (effects, again s) e t ih h =
    let more : k < m = ground (arith, ap (λ b. within_retry_budget b k) e, t.1) in
    let (n, ((es, r), ends, few), room) = ih more s in
    (
      suc n,
      (
        (effects ++ es, r),
        ap (after_effects effects) ends,
        omega (arith, pauses-append effects es, t.0, few),
      ),
      omega (arith, room),
    )

number_loop-Ends :
    (fuel m k : ℕ) (o : Options) (turns : ℕ → NumberTurn) (s : Sender)
    → o.max_retries ≡ some m
    → k ≤ m
    → m < k + fuel
    → (n : ℕ) × EndsWithin n (number_loop fuel o turns k s) × (k + n ≤ m)
unfolding number_loop
number_loop-Ends zero m k o turns s e h f = absurd (omega arith)
number_loop-Ends (suc fuel) m k o turns s e h f =
    on_next-Ends o m k (number_loop fuel o turns (k + 1)) (number_turn o k s (turns k)) e
      (number_turn-TurnIs o k s (turns k))
      (λ more s'.
        let (n, ends, room) =
          number_loop-Ends fuel m (k + 1) o turns s' e (omega arith) (omega arith) in
        (n, ends, omega (arith, room)))
      h

with_base-Ends :
    (m : ℕ) (o : Options) (turns : ℕ → NumberTurn) (base : Result ConnectionError Sender)
    → o.max_retries ≡ some m
    → EndsWithin m (with_base (suc m) o turns base)
unfolding with_base
with_base-Ends m o turns (ok s) e =
    let (n, ((es, r), ends, few), room) =
      number_loop-Ends (suc m) m 0 o turns s e (omega arith) (omega arith) in
    ((gets_base ∷ es, r), ap (after_effects (gets_base ∷ [])) ends, omega (arith, few, room))
with_base-Ends m o turns (err f) e = ((gets_base ∷ [], err (connection f)), refl, omega arith)

-- With at most m retries, the lookup of a topic's number of partitions ends within m + 1 turns,
-- whatever the brokers answer, and pauses m times at most.
pub lookup_number-Ends :
    (m : ℕ) (o : Options) (turns : ℕ → NumberTurn) (base : Result ConnectionError Sender)
    (topic : Text)
    → o.max_retries ≡ some m
    → (r : Ended) × (lookup_number (suc m) o turns base topic ≡ some r) × (pauses r.0 ≤ m)
unfolding lookup_number
lookup_number-Ends m o turns base topic e =
    elim (Bool-cases (o.metadata_auto_creation_enabled && is_topic_partition_name topic)) [
      | inl f ↦ rw f (([], ok 0), refl, omega arith)
      | inr f ↦ rw f (with_base-Ends m o turns base e)
    ]
