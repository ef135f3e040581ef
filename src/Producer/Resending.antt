-- ===== src/Producer/Resending.antt =====
-- src/producer.rs: send_message, which reconnects the producer until a message is handed to a
-- connection. Connections and futures of receipts are numbers. What a turn of its loop meets is
-- given, with the errors of the lookup and of retry_create_producer of any type.
use pulsar_rdg_rs.Prelude.{
  ℕ, zero, suc, Bool, true, false, Option, none, some, List, [], ◌∷◌, ◌++◌, Result, ok, err,
}
use pulsar_rdg_rs.Bytes.{Bytes}
use pulsar_rdg_rs.Errors.{ConnectionError, io, timed_out, disconnected}
use pulsar_rdg_rs.Producer.Message.{ProducerMessage}

-- Whether the connection is valid, what a send on it gives, and how the lookup of the topic and
-- then retry_create_producer end: that puts a connection in place, if it gets one, also where it
-- fails afterwards, and gives a schema version.
pub record Turn (E : Type 0) : Type 0 where
  pub is_valid : Bool
  pub sent : Result ConnectionError ℕ
  pub looked_up : Result E ℕ
  pub created : Option ℕ × Result E (Option Bytes)

pub data SendError (E : Type 0) : Type 0 where
  connection_failed : ConnectionError → SendError E
  client_failed : E → SendError E

-- A send of the message and a close of the producer, each on a connection.
pub data Effect : Type 0 where
  sends : (conn : ℕ) → ProducerMessage → Effect
  closes : (conn : ℕ) → Effect

-- The arguments that the loop changes.
pub record State : Type 0 where
  pub connection : ℕ
  pub schema_version : Option Bytes

abbrev pub Run : Type 0 → Type 0
Run E = Option (List Effect × State × Result (SendError E) ℕ)

abbrev pub prepend : {E : Type 0} → List Effect → Run E → Run E
prepend es none = none
prepend es (some (fs, s, r)) = some (es ++ fs, s, r)

-- `*connection = …`, where it is reached.
abbrev pub replaced : State → Option ℕ → State
replaced s none = s
replaced s (some conn) = record s { connection = conn }

module _ {E : Type 0} where
  unfoldable pub on_created : State → Result E (Option Bytes) → (State → Run E) → Run E
  on_created s (ok schema_version) rest = rest (record s { schema_version = schema_version })
  on_created s (err e) rest = some ([], s, err (client_failed e))

  -- The producer is closed, whether that succeeds or not, and connects anew.
  unfoldable pub on_looked_up : State → Turn E → Result E ℕ → (State → Run E) → Run E
  unfolding on_created
  on_looked_up s t (ok broker_address) rest = on_created (replaced s t.created.0) t.created.1 rest
  on_looked_up s t (err e) rest = some ([], s, err (client_failed e))

  unfoldable pub reconnect_producer : State → Turn E → (State → Run E) → Run E
  unfolding on_looked_up
  reconnect_producer s t rest =
      prepend (closes s.connection ∷ []) (on_looked_up s t t.looked_up rest)

  unfoldable pub on_sent : State → Turn E → Result ConnectionError ℕ → (State → Run E) → Run E
  unfolding reconnect_producer
  on_sent s t (ok fut) rest = some ([], s, ok fut)
  on_sent s t (err disconnected) rest = reconnect_producer s t rest
  on_sent s t (err (io timed_out)) rest = reconnect_producer s t rest
  on_sent s t (err e) rest = some ([], s, err (connection_failed e))

  unfoldable pub on_valid : State → Turn E → ProducerMessage → Bool → (State → Run E) → Run E
  unfolding on_sent
  on_valid s t message true rest =
      prepend (sends s.connection message ∷ []) (on_sent s t t.sent rest)
  on_valid s t message false rest = reconnect_producer s t rest

  -- send_message, from turn `i` of its loop on.
  unfoldable pub send_message : ℕ → (ℕ → Turn E) → ProducerMessage → ℕ → State → Run E
  unfolding on_valid
  send_message zero turns message i s = none
  send_message (suc fuel) turns message i s =
      on_valid s (turns i) message (turns i).is_valid
        (λ s. send_message fuel turns message (suc i) s)
