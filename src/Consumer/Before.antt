-- ===== src/Consumer/Before.antt =====
-- Which messages `is_before_start_message` drops, said without its tests.
use pulsar_rdg_rs.Prelude.{
  ◌≡◌, inl, inr, refl, ap, ◌∙◌, Bool, true, false, Option, none, some, [], ◌∷◌, ◌++◌, ◌==◌, ◌&&◌,
  ==_iff, arith, Bool-cases, ◌↔◌,
}
use pulsar_rdg_rs.Prelude.Int.{ℤ, ◌<ℤ◌, ◌≤ℤ◌}
use pulsar_rdg_rs.Bytes.{Text}
use pulsar_rdg_rs.Proto.{MessageIdData}
use pulsar_rdg_rs.Consumer.Start.{
  starts_with, non_persistent, is_persistent_topic, before_index, before_start,
  is_before_start_message,
}

-- Of two places in a batch, the one that is not to be read because the consumer starts at the
-- other; without two places the entries are the same message.
abbrev pub IsPlaceBefore : Bool → Option ℤ → Option ℤ → Type 0
IsPlaceBefore true (some index) (some start_index) = index <ℤ start_index
IsPlaceBefore false (some index) (some start_index) = index ≤ℤ start_index
IsPlaceBefore inclusive _ _ = inclusive ≡ false

-- The topic is persistent, and the message lies in the start message's entry and in a place before
-- the start.
pub record IsBefore (topic : Text) (start : Option MessageIdData) (inclusive : Bool)
    (id : MessageIdData) : Type 0 where
  pub persistent : (rest : Text) → ¬ (topic ≡ non_persistent ++ rest)
  pub message : MessageIdData
  pub started : start ≡ some message
  pub same_ledger : id.ledger_id ≡ message.ledger_id
  pub same_entry : id.entry_id ≡ message.entry_id
  pub place : IsPlaceBefore inclusive id.batch_index message.batch_index

starts_with-append : (p rest : Text) → starts_with (p ++ rest) p ≡ true
starts_with-append [] rest = refl
starts_with-append (c ∷ p) rest = rw ((==_iff c c).1 refl) (starts_with-append p rest)

starts_with-rest : (s p : Text) → starts_with s p ≡ true → (rest : Text) × (s ≡ p ++ rest)
starts_with-rest s [] h = (s, refl)
starts_with-rest [] (c ∷ p) h = absurd (cc)
starts_with-rest (a ∷ s) (c ∷ p) h =
    let same : a ≡ c = ground (arith, h) in
    let (rest, e) = starts_with-rest s p (ground (arith, h)) in (rest, cc (same, e))

persistent_iff :
    (topic : Text)
    → (is_persistent_topic topic ≡ true) ↔ ((rest : Text) → ¬ (topic ≡ non_persistent ++ rest))
unfolding is_persistent_topic
persistent_iff topic = (
  λ h rest e.
      let starts =
        ap (λ s. starts_with s non_persistent) e ∙ starts_with-append non_persistent rest in
      ground (arith, h, starts),
  λ h. elim (Bool-cases (starts_with topic non_persistent)) [
    | inl e ↦ let (rest, f) = starts_with-rest topic non_persistent e in absurd (h rest f)
    | inr e ↦ rw e refl
  ],
)

before_index_iff :
    (inclusive : Bool) (i j : Option ℤ)
    → (before_index inclusive i j ≡ true) ↔ IsPlaceBefore inclusive i j
unfolding before_index
before_index_iff true (some i) (some j) = (λ h. ground (arith, h), λ h. ground (arith, h))
before_index_iff false (some i) (some j) = (λ h. ground (arith, h), λ h. ground (arith, h))
before_index_iff inclusive (some i) none = (λ h. ground (arith, h), λ h. ground (arith, h))
before_index_iff inclusive none j = (λ h. ground (arith, h), λ h. ground (arith, h))

before_start-true :
    (inclusive : Bool) (id m : MessageIdData)
    → before_start inclusive id (some m) ≡ true
    → (id.ledger_id ≡ m.ledger_id)
      × (id.entry_id ≡ m.entry_id)
      × (before_index inclusive id.batch_index m.batch_index ≡ true)
unfolding before_start
before_start-true inclusive id m h =
    elim (Bool-cases ((id.ledger_id == m.ledger_id) && (id.entry_id == m.entry_id))) [
      | inl e ↦ (ground (arith, e), ground (arith, e), ground (arith, e, h))
      | inr e ↦ absurd (ground (arith, e, h))
    ]

module _ (topic : Text) (start : Option MessageIdData) (inclusive : Bool) (id : MessageIdData) where
  started-IsBefore :
      (o : Option MessageIdData)
      → start ≡ o
      → is_persistent_topic topic ≡ true
      → before_start inclusive id o ≡ true
      → IsBefore topic start inclusive id
  unfolding before_start
  started-IsBefore none e p h = absurd (cc)
  started-IsBefore (some m) e p h =
      let (l, n, b) = before_start-true inclusive id m h in
      record {
        persistent = (persistent_iff topic).0 p;
        message = m;
        started = e;
        same_ledger = l;
        same_entry = n;
        place = (before_index_iff inclusive id.batch_index m.batch_index).0 b;
      }

  -- The two agree.
  pub is_before_start_message-IsBefore :
      is_before_start_message topic start inclusive id ≡ true → IsBefore topic start inclusive id
  unfolding is_before_start_message
  is_before_start_message-IsBefore h = elim (Bool-cases (is_persistent_topic topic)) [
    | inl p ↦ started-IsBefore start refl p (ground (arith, p, h))
    | inr p ↦ absurd (ground (arith, p, h))
  ]

  IsBefore-is_before_start_message :
      IsBefore topic start inclusive id → is_before_start_message topic start inclusive id ≡ true
  unfolding is_before_start_message before_start
  IsBefore-is_before_start_message b =
      rw
        (
          (persistent_iff topic).1 b.persistent,
          b.started,
          (==_iff id.ledger_id b.message.ledger_id).1 b.same_ledger,
          (==_iff id.entry_id b.message.entry_id).1 b.same_entry,
        )
        ((before_index_iff inclusive id.batch_index b.message.batch_index).1 b.place)

  pub not-IsBefore :
      is_before_start_message topic start inclusive id ≡ false → ¬ IsBefore topic start inclusive id
  not-IsBefore h b = cc (h, IsBefore-is_before_start_message b)
