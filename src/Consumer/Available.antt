-- ===== src/Consumer/Available.antt =====
-- What `has_message_available` says of the messages of a topic.
use pulsar_rdg_rs.Prelude.{
  ℕ, ◌^◌, ◌<◌, ◌≤◌, ◌≡◌, ◌⊎◌, inl, inr, refl, sym, ap, ◌∙◌, Option, none, some, Bool, true, false,
  Result, ok, if◌then◌else◌, arith,
}
use pulsar_rdg_rs.Prelude.Int.{ℤ, pos, ltb_ℤ, as_i64, ◌+ℤ◌, ◌<ℤ◌, +ℤ_parts}
use pulsar_rdg_rs.Proto.{MessageIdData, MessageMetadata}
use pulsar_rdg_rs.Codec.{Payload}
use pulsar_rdg_rs.Consumer.Topic.{
  TopicConsumer, partly, partly_read, position, compared, against, available, has_message_available,
  poll_next, message,
}

-- Entries in the order in which the topic holds them.
abbrev pub IsUpTo : MessageIdData → MessageIdData → Type 0
IsUpTo a b = (a.ledger_id < b.ledger_id) ⊎ ((a.ledger_id ≡ b.ledger_id) × (a.entry_id ≤ b.entry_id))

compared-false :
    (last d id : MessageIdData) → compared last d false ≡ false → IsUpTo id last → IsUpTo id d
unfolding compared
compared-false last d id h u = ground arith

compared-true : (last d : MessageIdData) → compared last d false ≡ true → IsUpTo last d → ⊥
unfolding compared
compared-true last d h u = ground arith

pub not_empty : (n : ℕ) → n < 2 ^ 63 → ltb_ℤ (as_i64 n) (pos 0) ≡ false
not_empty n h = ground arith

has_message_available-dequeued :
    (E : Type 0) (c : TopicConsumer) (now : ℕ) (d last : MessageIdData)
    (p : Payload MessageMetadata)
    → last.entry_id < 2 ^ 63
    → has_message_available {E = E} (poll_next {E = E} c now (message d p)) (ok last)
      ≡ (if partly d.batch_index d.batch_size then ok true else ok (compared last d false))
unfolding has_message_available partly_read available against position poll_next
has_message_available-dequeued E c now d last p h = rw (not_empty last.entry_id h) refl

-- The batch of the message has a place behind the message's own.
abbrev pub IsFollowed : MessageIdData → Type 0
IsFollowed d =
    (index place size : ℤ) × (d.batch_index ≡ some index)
    × (d.batch_size ≡ some size)
    × (index <ℤ place)
    × (place <ℤ size)

partly-true :
    (i n : Option ℤ)
    → partly i n ≡ true
    → (index place size : ℤ) × (i ≡ some index)
      × (n ≡ some size)
      × (index <ℤ place)
      × (place <ℤ size)
partly-true none n h = absurd (cc)
partly-true (some index) none h = absurd (cc)
partly-true (some index) (some size) h = (
  index,
  index +ℤ pos 1,
  size,
  refl,
  refl,
  omega (arith, +ℤ_parts index (pos 1)),
  ground (arith, h),
)

partly-false :
    (i n : Option ℤ) (index place size : ℤ)
    → partly i n ≡ false
    → i ≡ some index
    → n ≡ some size
    → index <ℤ place
    → place <ℤ size
    → ⊥
partly-false i n index place size h e f l m =
    let last : ltb_ℤ (index +ℤ pos 1) size ≡ false =
      sym (ap (λ x. partly x n) e ∙ ap (partly (some index)) f) ∙ h in
    ground (arith, last, +ℤ_parts index (pos 1))

-- After a consumer has handed out a message, whatever it was before, the answer for a topic that is
-- not empty is right: if there is said to be no more, the message's batch has no place behind the
-- message's own and no entry up to the broker's last one lies behind its entry, and if there is
-- said to be more, its batch has such a place or the last entry lies behind its own.
pub has_message_available_correct :
    (E : Type 0) (c : TopicConsumer) (now : ℕ) (d last : MessageIdData)
    (p : Payload MessageMetadata)
    → last.entry_id < 2 ^ 63
    → let answer =
        has_message_available {E = E} (poll_next {E = E} c now (message d p)) (ok last) in
      ((answer ≡ ok false) → ¬ IsFollowed d × ((id : MessageIdData) → IsUpTo id last → IsUpTo id d))
      × ((answer ≡ ok true) → IsFollowed d ⊎ ¬ IsUpTo last d)
has_message_available_correct E c now d last p h =
    rw (has_message_available-dequeued E c now d last p h)
      (go (partly d.batch_index d.batch_size) (compared last d false) refl refl)
  where
    alone : partly d.batch_index d.batch_size ≡ false → ¬ IsFollowed d
    alone f (index, place, size, e, g, l, m) =
        partly-false d.batch_index d.batch_size index place size f e g l m

    go :
        (more after : Bool)
        → partly d.batch_index d.batch_size ≡ more
        → compared last d false ≡ after
        → (((if◌then◌else◌ {A = Result E Bool} more (ok true) (ok after)) ≡ ok false)
            → ¬ IsFollowed d × ((id : MessageIdData) → IsUpTo id last → IsUpTo id d))
          × (((if◌then◌else◌ {A = Result E Bool} more (ok true) (ok after)) ≡ ok true)
              → IsFollowed d ⊎ ¬ IsUpTo last d)
    go true after f q = (λ e. absurd (cc), λ e. inl (partly-true d.batch_index d.batch_size f))
    go false true f q = (λ e. absurd (cc), λ e. inr (compared-true last d q))
    go false false f q = (λ e. (alone f, λ id. compared-false last d id q), λ e. absurd (cc))
