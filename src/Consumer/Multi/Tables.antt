-- ===== src/Consumer/Multi/Tables.antt =====
-- A table of consumers without a topic, and what its counts come to.
use pulsar_rdg_rs.Prelude.{
  ◌+◌, ℕ, ◌≡◌, refl, sym, ap, ◌∙◌, Option, none, some, [], ◌∷◌, arith, Bool-cases, inl, inr,
}
use pulsar_rdg_rs.Prelude.Maps.{Map, remove, beq_refl, lookup, insert, lookup-remove}
use pulsar_rdg_rs.Prelude.Equals.{text_eq}
use pulsar_rdg_rs.Bytes.{Text}
use pulsar_rdg_rs.Consumer.Multi.{Member, received_total, max_option, last_of}

-- No topic stands in the table twice.
abbrev pub IsUnique : {E : Type 0} → Map Text (Member E) → Type 0
IsUnique [] = Unit
IsUnique ((topic, c) ∷ cs) = (lookup topic cs ≡ none) × IsUnique cs

module _ (E : Type 0) where
  abbrev pub count_of : Option (Member E) → ℕ
  count_of none = 0
  count_of (some c) = c.consumer.messages_received

  abbrev pub last_at : Option (Member E) → Option ℕ
  last_at none = none
  last_at (some c) = c.consumer.last_message_received

  pub remove-IsUnique :
      (topic : Text) (cs : Map Text (Member E)) → IsUnique cs → IsUnique (remove topic cs)
  unfolding remove
  remove-IsUnique topic [] u = tt
  remove-IsUnique topic ((t, c) ∷ cs) u = elim (Bool-cases (text_eq.beq t topic)) [
    | inl e ↦ rw e (remove-IsUnique topic cs u.1)
    | inr e ↦ rw e (ground (arith, lookup-remove topic t cs, u.0), remove-IsUnique topic cs u.1)
  ]

  pub insert-IsUnique :
      (topic : Text) (c : Member E) (cs : Map Text (Member E))
      → IsUnique cs
      → IsUnique (insert topic c cs)
  unfolding insert
  insert-IsUnique topic c cs u =
      (ground (arith, lookup-remove topic topic cs, beq_refl topic), remove-IsUnique topic cs u)

  pub received_total-remove :
      (topic : Text) (cs : Map Text (Member E))
      → IsUnique cs
      → received_total (remove topic cs) + count_of (lookup topic cs) ≡ received_total cs
  unfolding remove lookup
  received_total-remove topic [] u = refl
  received_total-remove topic ((t, c) ∷ cs) u = elim (Bool-cases (text_eq.beq t topic)) [
    | inl e ↦
        let same : lookup topic cs ≡ none =
          ap (λ k. lookup k cs) (sym ((text_eq.beq_iff t topic).0 e)) ∙ u.0 in
        let rest = received_total-remove topic cs u.1 in rw e omega (arith, rest, ap count_of same)
    | inr e ↦ let rest = received_total-remove topic cs u.1 in rw e omega (arith, rest)
  ]

  max_option_swap :
      (a b c : Option ℕ) → max_option a (max_option b c) ≡ max_option b (max_option a c)
  max_option_swap none b c = ground arith
  max_option_swap (some a) none c = refl
  max_option_swap (some a) (some b) none = ground arith
  max_option_swap (some a) (some b) (some c) = ground arith

  pub max_option_comm : (a b : Option ℕ) → max_option a b ≡ max_option b a
  max_option_comm none none = refl
  max_option_comm none (some b) = refl
  max_option_comm (some a) none = refl
  max_option_comm (some a) (some b) = ground arith

  last_of-max_option :
      (cs : Map Text (Member E)) (a last : Option ℕ)
      → last_of cs (max_option a last) ≡ max_option a (last_of cs last)
  last_of-max_option [] a last = refl
  last_of-max_option ((t, c) ∷ cs) a last =
      ap (max_option c.consumer.last_message_received) (last_of-max_option cs a last)
      ∙ max_option_swap c.consumer.last_message_received a (last_of cs last)

  pub last_of-remove :
      (topic : Text) (cs : Map Text (Member E)) (last : Option ℕ)
      → IsUnique cs
      → last_of (remove topic cs) (max_option (last_at (lookup topic cs)) last) ≡ last_of cs last
  unfolding remove lookup
  last_of-remove topic [] last u = refl
  last_of-remove topic ((t, c) ∷ cs) last u = elim (Bool-cases (text_eq.beq t topic)) [
    | inl e ↦
        let same : lookup topic cs ≡ none =
          ap (λ k. lookup k cs) (sym ((text_eq.beq_iff t topic).0 e)) ∙ u.0 in
        let rest = last_of-remove topic cs last u.1 in
        let whole : last_of (remove topic cs) last ≡ last_of cs last =
          ap (λ o. last_of (remove topic cs) (max_option (last_at o) last)) (sym same) ∙ rest in
        rw e (
          last_of-max_option (remove topic cs) c.consumer.last_message_received last
          ∙ ap (max_option c.consumer.last_message_received) whole)
    | inr e ↦
        rw e (ap (max_option c.consumer.last_message_received) (last_of-remove topic cs last u.1))
  ]
