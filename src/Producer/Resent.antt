-- ===== src/Producer/Resent.antt =====
-- A message is sent on the first connection that takes it.
use mathlib.Core.List.{append_assoc}
use pulsar_rdg_rs.Prelude.{
  ℕ, zero, suc, ◌+◌, ◌≡◌, ◌⊎◌, refl, sym, ap, ◌∙◌, true, false, Option, none, some, Result, List,
  [], ◌∷◌, ◌++◌, ok, err, arith, inl, inr,
}
use pulsar_rdg_rs.Bytes.{Bytes}
use pulsar_rdg_rs.Errors.{ConnectionError, io, timed_out, disconnected}
use pulsar_rdg_rs.Producer.Message.{ProducerMessage}
use pulsar_rdg_rs.Producer.Resending.{
  Turn, Effect, sends, closes, State, Run, prepend, replaced, on_created, on_looked_up,
  reconnect_producer, on_sent, on_valid, send_message,
}

-- The connection is lost, known before the send or by it, and the producer connects anew.
pub record IsLost {E : Type 0} (t : Turn E) (s : State) : Type 0 where
  pub lost :
      (t.is_valid ≡ false)
      ⊎ ((t.is_valid ≡ true) × ((t.sent ≡ err disconnected) ⊎ (t.sent ≡ err (io timed_out))))
  pub address : ℕ
  pub found : t.looked_up ≡ ok address
  pub created : t.created ≡ (some s.connection, ok s.schema_version)

-- The `k` turns from `i` on are lost, and lead from one state to the other.
abbrev pub AllLost : {E : Type 0} → (ℕ → Turn E) → ℕ → ℕ → State → State → Type 0
AllLost turns i zero s u = s ≡ u
AllLost turns i (suc k) s u = (t : State) × IsLost (turns i) t × AllLost turns (suc i) k t u

-- Only this message is sent.
abbrev pub AllSame : ProducerMessage → List Effect → Type 0
AllSame message [] = Unit
AllSame message (sends conn m ∷ es) = (m ≡ message) × AllSame message es
AllSame message (closes conn ∷ es) = AllSame message es

AllSame-append :
    (message : ProducerMessage) (es fs : List Effect)
    → AllSame message es
    → AllSame message fs
    → AllSame message (es ++ fs)
AllSame-append message [] fs h k = k
AllSame-append message (sends conn m ∷ es) fs (e, h) k = (e, AllSame-append message es fs h k)
AllSame-append message (closes conn ∷ es) fs h k = AllSame-append message es fs h k

module _ {E : Type 0} (message : ProducerMessage) where
  reconnect_producer-IsLost :
      (s u : State) (t : Turn E) (rest : State → Run E)
      → IsLost t u
      → reconnect_producer s t rest ≡ prepend (closes s.connection ∷ []) (rest u)
  unfolding reconnect_producer on_looked_up on_created
  reconnect_producer-IsLost s u t rest l =
      ap (λ r. prepend (closes s.connection ∷ []) (on_looked_up s t r rest)) l.found
      ∙ ap
          (λ (r : Option ℕ × Result E (Option Bytes)).
            prepend (closes s.connection ∷ []) (on_created (replaced s r.0) r.1 rest))
          l.created

  prepend-prepend :
      (es fs : List Effect) (r : Run E) → prepend es (prepend fs r) ≡ prepend (es ++ fs) r
  prepend-prepend es fs none = refl
  prepend-prepend es fs (some (gs, s, r)) = ap (λ l. some (l, s, r)) (sym (append_assoc es fs gs))

  -- The connection was valid, and the send on it failed with `x`, after which the loop reconnects.
  on_sent-IsLost :
      (s u : State) (t : Turn E) (rest : State → Run E) (x : ConnectionError)
      → IsLost t u
      → t.is_valid ≡ true
      → t.sent ≡ err x
      → on_sent s t (err x) rest ≡ reconnect_producer s t rest
      → on_valid s t message t.is_valid rest
        ≡ prepend (sends s.connection message ∷ closes s.connection ∷ []) (rest u)
  unfolding on_valid
  on_sent-IsLost s u t rest x l v e again =
      ap (λ b. on_valid s t message b rest) v
      ∙ ap (λ r. prepend (sends s.connection message ∷ []) (on_sent s t r rest)) e
      ∙ ap (prepend (sends s.connection message ∷ []))
          (again ∙ reconnect_producer-IsLost s u t rest l)
      ∙ prepend-prepend (sends s.connection message ∷ []) (closes s.connection ∷ []) (rest u)

  on_valid-IsLost :
      (s u : State) (t : Turn E) (rest : State → Run E)
      → IsLost t u
      → (es : List Effect) × AllSame message es
        × (on_valid s t message t.is_valid rest ≡ prepend es (rest u))
  unfolding on_valid on_sent
  on_valid-IsLost s u t rest l =
      let both = sends s.connection message ∷ closes s.connection ∷ [] in
      elim l.lost [
        | inl e ↦ (
          closes s.connection ∷ [],
          tt,
          ap (λ b. on_valid s t message b rest) e ∙ reconnect_producer-IsLost s u t rest l,
        )
        | inr (v, inl e) ↦ (both, (refl, tt), on_sent-IsLost s u t rest disconnected l v e refl)
        | inr (v, inr e) ↦ (both, (refl, tt), on_sent-IsLost s u t rest (io timed_out) l v e refl)
      ]

  -- When the connection is lost in the first `k` turns, known before the send or by its failing,
  -- the producer connects anew each time, and then finds its connection valid and the send on it
  -- succeeds, then k + 1 rounds of the loop are enough: it ends with that send's future, on the
  -- last connection, with the schema version that the last reconnection gave, and sends nothing but
  -- this message, as it was at first.
  pub send_message-AllLost :
      (turns : ℕ → Turn E) (k i fut : ℕ) (s u : State)
      → AllLost turns i k s u
      → (turns (i + k)).is_valid ≡ true
      → (turns (i + k)).sent ≡ ok fut
      → (es : List Effect) × AllSame message es
        × (send_message (suc k) turns message i s ≡ some (es, u, ok fut))
  unfolding send_message on_valid on_sent
  send_message-AllLost turns zero i fut s u e v o =
      let here : i + 0 ≡ i = omega arith in
      let t = turns i in
      let rest : State → Run E = λ s. send_message zero turns message (suc i) s in
      (
        sends s.connection message ∷ [],
        (refl, tt),
        ap (λ b. on_valid s t message b rest) (ap (λ j. (turns j).is_valid) (sym here) ∙ v)
            ∙ ap (λ r. prepend (sends s.connection message ∷ []) (on_sent s t r rest))
                (ap (λ j. (turns j).sent) (sym here) ∙ o)
            ∙ ap (λ u. some (sends s.connection message ∷ [], u, ok fut)) e,
      )
  send_message-AllLost turns (suc k) i fut s u (t, l, ls) v o =
      let there : i + suc k ≡ suc i + k = omega arith in
      let (es, same, first) =
        on_valid-IsLost s t (turns i) (λ s. send_message (suc k) turns message (suc i) s) l in
      let (fs, same', more) =
        send_message-AllLost turns k (suc i) fut t u ls
          (ap (λ j. (turns j).is_valid) (sym there) ∙ v)
          (ap (λ j. (turns j).sent) (sym there) ∙ o) in
      (es ++ fs, AllSame-append message es fs same same', first ∙ ap (prepend es) more)
