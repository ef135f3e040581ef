-- ===== src/Consumer/Unacked.antt =====
-- The messages that are redelivered when they are not acknowledged in time.
use pulsar_rdg_rs.Prelude.{
  ℕ, ◌≡◌, refl, ap, sym, ◌∙◌, Bool, true, false, ◌||◌, none, some, List, [], ◌∷◌, if◌then◌else◌,
  arith,
}
use pulsar_rdg_rs.Prelude.Maps.{Map, lookup, remove, lookup-remove, Eq, beq_refl}
use pulsar_rdg_rs.Proto.{MessageIdData}
use pulsar_rdg_rs.Consumer.Ids.{id_eq}
use pulsar_rdg_rs.Consumer.Engine.{World, ConsumerEngine}
use pulsar_rdg_rs.Consumer.Steps.{
  expired, remove_all, redeliver, unacked_redelivery, handle_ack_opt,
}

module _ {K : Type 0} ⦃e : Eq K⦄ where
  abbrev pub mem : K → List K → Bool
  mem k [] = false
  mem k (x ∷ xs) = e.beq x k || mem k xs

  abbrev without : K → List K → List K
  without k [] = []
  without k (x ∷ xs) = if e.beq x k then without k xs else x ∷ without k xs

  abbrev without_all : List K → List K → List K
  without_all ks [] = []
  without_all ks (x ∷ xs) = if mem x ks then without_all ks xs else x ∷ without_all ks xs

  without_all-without :
      (k : K) (ks xs : List K) → without_all ks (without k xs) ≡ without_all (k ∷ ks) xs
  without_all-without k ks [] = refl
  without_all-without k ks (x ∷ xs) =
      ground (arith, e.beq_iff x k, e.beq_iff k x, without_all-without k ks xs)

  without_all-nil : (xs : List K) → without_all [] xs ≡ xs
  without_all-nil [] = refl
  without_all-nil (x ∷ xs) = ap (◌∷◌ x) (without_all-nil xs)

  without_all-sub :
      (ks xs : List K) → ((y : K) → mem y xs ≡ true → mem y ks ≡ true) → without_all ks xs ≡ []
  without_all-sub ks [] h = refl
  without_all-sub ks (x ∷ xs) h =
      rw (h x (ground (arith, beq_refl x))) (without_all-sub ks xs (λ y e. h y (ground arith)))

  expired-remove :
      (now : ℕ) (k : K) (m : Map K ℕ) → expired now (remove k m) ≡ without k (expired now m)
  unfolding expired remove
  expired-remove now k [] = refl
  expired-remove now k ((j, t) ∷ m) = ground (arith, expired-remove now k m)

  expired-remove_all :
      (now : ℕ) (ks : List K) (m : Map K ℕ)
      → expired now (remove_all ks m) ≡ without_all ks (expired now m)
  unfolding remove_all
  expired-remove_all now [] m = sym (without_all-nil (expired now m))
  expired-remove_all now (k ∷ ks) m =
      expired-remove_all now ks (remove k m)
      ∙ ap (without_all ks) (expired-remove now k m)
      ∙ without_all-without k ks (expired now m)

  lookup-remove_all :
      (k : K) (ks : List K) (m : Map K ℕ)
      → lookup k (remove_all ks m) ≡ (if mem k ks then none else lookup k m)
  unfolding remove_all
  lookup-remove_all k [] m = refl
  lookup-remove_all k (j ∷ ks) m =
      lookup-remove_all k ks (remove j m) ∙ ground (arith, lookup-remove j k m)

-- When the broker is asked to redeliver and the request goes out, no message that is overdue stays
-- tracked, and a message that is not overdue stays tracked with the time that it had.
pub handle_ack_opt-unacked_redelivery :
    (w : World) (e : ConsumerEngine) (id : MessageIdData)
    → ((ids : List MessageIdData) → w.redelivery_accepted ids ≡ true)
    → let later = (handle_ack_opt w e (some unacked_redelivery)).engine.unacked_messages in
      let overdue = expired w.now e.unacked_messages in
      (expired w.now later ≡ [])
      × (lookup id later ≡ (if mem id overdue then none else lookup id e.unacked_messages))
unfolding handle_ack_opt
handle_ack_opt-unacked_redelivery w e id accepted = go (expired w.now e.unacked_messages) refl
  where
    go :
        (ids : List MessageIdData)
        → expired w.now e.unacked_messages ≡ ids
        → let later = (redeliver w.redelivery_accepted e ids).engine.unacked_messages in
          (expired w.now later ≡ [])
          × (lookup id later ≡ (if mem id ids then none else lookup id e.unacked_messages))
    go [] q = unfold redeliver in (q, refl)
    go (j ∷ ids) q =
        unfold redeliver in
        rw (accepted (j ∷ ids)) (
          expired-remove_all w.now (j ∷ ids) e.unacked_messages
              ∙ ap (without_all (j ∷ ids)) q
              ∙ without_all-sub (j ∷ ids) (j ∷ ids) (λ y h. h),
          lookup-remove_all id (j ∷ ids) e.unacked_messages,
        )
