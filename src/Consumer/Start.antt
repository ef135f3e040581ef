-- ===== src/Consumer/Start.antt =====
-- src/consumer/engine.rs: which messages lie before the consumer's start message.
use pulsar_rdg_rs.Prelude.{
  Bool, true, false, Option, none, some, [], ◌∷◌, not, ◌==◌, ◌&&◌, if◌then◌else◌,
}
use pulsar_rdg_rs.Prelude.Int.{ℤ, ltb_ℤ, leb_ℤ}
use pulsar_rdg_rs.Bytes.{Text}
use pulsar_rdg_rs.Proto.{MessageIdData}

-- str::starts_with
abbrev pub starts_with : Text → Text → Bool
starts_with s [] = true
starts_with [] (c ∷ p) = false
starts_with (a ∷ s) (c ∷ p) = (a == c) && starts_with s p

-- "non-persistent://"
abbrev pub non_persistent : Text
non_persistent =
    110 ∷ 111 ∷ 110 ∷ 45 ∷ 112 ∷ 101 ∷ 114 ∷ 115 ∷ 105 ∷ 115 ∷ 116 ∷ 101 ∷ 110 ∷ 116 ∷ 58 ∷ 47 ∷ 47
    ∷ []

unfoldable pub is_persistent_topic : Text → Bool
is_persistent_topic topic = not (starts_with topic non_persistent)

-- The match on the batch indices, for the same entry.
unfoldable pub before_index : Bool → Option ℤ → Option ℤ → Bool
before_index inclusive (some index) (some start_index) =
    if inclusive then ltb_ℤ index start_index else leb_ℤ index start_index
before_index inclusive _ _ = not inclusive

unfoldable pub before_start : Bool → MessageIdData → Option MessageIdData → Bool
before_start inclusive message_id none = false
before_start inclusive message_id (some start) =
    if (message_id.ledger_id == start.ledger_id) && (message_id.entry_id == start.entry_id)
    then before_index inclusive message_id.batch_index start.batch_index
    else false

-- ConsumerEngine::is_before_start_message, on the engine's topic and the two start options.
unfoldable pub is_before_start_message : Text → Option MessageIdData → Bool → MessageIdData → Bool
is_before_start_message topic start inclusive message_id =
    if is_persistent_topic topic then before_start inclusive message_id start else false
