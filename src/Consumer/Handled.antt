-- ===== src/Consumer/Handled.antt =====
-- What the loop of `process_payload` does about each message, said without its tests.
use pulsar_rdg_rs.Prelude.{ℕ, ◌≤◌, ◌≡◌, false, Option, some, List, [], ◌∷◌, ◌++◌}
use pulsar_rdg_rs.Producer.Message.{Message}
use pulsar_rdg_rs.Batch.{Item}
use pulsar_rdg_rs.Bytes.{Text}
use pulsar_rdg_rs.Consumer.Engine.{
  World, ConsumerOptions, DeadLetterPolicy, Effect, dead_lettered, delivered, acked,
}
use pulsar_rdg_rs.Consumer.Before.{IsBefore}
use pulsar_rdg_rs.Consumer.DeadLetters.{IsDeadLetter}

-- The message has been redelivered as often as the policy allows.
pub record IsUsedUp (count : Option ℕ) (given : Option DeadLetterPolicy) (policy : DeadLetterPolicy)
    : Type 0 where
  pub redelivered : ℕ
  pub counted : count ≡ some redelivered
  pub set : given ≡ some policy
  pub enough : policy.max_redeliver_count ≤ redelivered

-- The effects of one message.
pub data Handled (w : World) (count : Option ℕ) (topic : Text) (options : ConsumerOptions)
    (given : Option DeadLetterPolicy) (x : Item) : List Effect → Type 0 where
  is_dropped :
      IsBefore topic options.start_message_id options.start_message_id_inclusive x.0
      → Handled w count topic options given x []
  is_dead :
      ¬ IsBefore topic options.start_message_id options.start_message_id_inclusive x.0
      → (policy : DeadLetterPolicy) (m : Message) → IsUsedUp count given policy
      → IsDeadLetter w topic x.0 x.1 m
      → Handled w count topic options given x
          (dead_lettered policy.dead_letter_topic m ∷ acked x.0 false ∷ [])
  is_delivered :
      ¬ IsBefore topic options.start_message_id options.start_message_id_inclusive x.0
      → ((policy : DeadLetterPolicy) → ¬ IsUsedUp count given policy)
      → Handled w count topic options given x (delivered x.0 x.1 ∷ [])

-- The effects are those of the messages, in their order.
abbrev pub AllHandled :
    World
    → Option ℕ
    → Text
    → ConsumerOptions
    → Option DeadLetterPolicy
    → List Item
    → List Effect
    → Type 0
AllHandled w count topic options given [] es = es ≡ []
AllHandled w count topic options given (x ∷ xs) es =
    (fs gs : List Effect) × (es ≡ fs ++ gs)
    × Handled w count topic options given x fs
    × AllHandled w count topic options given xs gs
