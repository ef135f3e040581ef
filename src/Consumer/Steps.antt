-- ===== src/Consumer/Steps.antt =====
-- src/consumer/engine.rs: the loop of `engine`, one turn at a time, and its handlers.
use pulsar_rdg_rs.Prelude.{
  ℕ, ◌+◌, ◌/◌, Bool, true, false, Option, none, some, List, [], ◌∷◌, ◌++◌, Result, ok, err,
  if◌then◌else◌, ltb,
}
use pulsar_rdg_rs.Prelude.Int.{ℤ, pos, ◌-ℤ◌, ltb_ℤ, as_u32}
use pulsar_rdg_rs.Prelude.Maps.{Eq, Map, remove}
use pulsar_rdg_rs.Proto.{
  MessageIdData, MessageMetadata, CommandMessage, CommandActiveConsumerChange, CommandCloseConsumer,
  Consumed,
}
use pulsar_rdg_rs.Codec.{Payload}
use pulsar_rdg_rs.Connection.{Message}
use pulsar_rdg_rs.Consumer.Ids.{id_eq}
use pulsar_rdg_rs.Consumer.Engine.{
  World, ConsumerEngine, EngineError, tx_closed, connection_error, Effect, failure_delivered,
  redelivery_asked, flow, Done, return, fail, ◌>>=◌, ack,
}
use pulsar_rdg_rs.Consumer.Deliver.{process_payload}

unfoldable pub reconnected : Result EngineError (Unit {0}) → ConsumerEngine → Done (Unit {0})
reconnected (ok u) e = return (record e { remaining_messages = pos e.batch_size }) tt
reconnected (err x) e = fail e x

-- ConsumerEngine::reconnect; the closing, the lookup and the new subscription are the `World`'s.
unfoldable pub reconnect : World → ConsumerEngine → Done (Unit {0})
unfolding reconnected
reconnect w e = reconnected w.reconnected e

-- The arms of `process_message`, on the fields that they match.
unfoldable pub on_kind :
    World
    → ConsumerEngine
    → Option Consumed
    → Option CommandActiveConsumerChange
    → Option CommandMessage
    → Option (Payload MessageMetadata)
    → Option CommandCloseConsumer
    → Done Bool
unfolding reconnect
on_kind w e (some end) change message payload close = return e false
on_kind w e none (some change) message payload close = return e true
on_kind w e none none (some message) (some payload) close =
    process_payload w e message payload >>= λ e _. return e true
on_kind w e none none (some message) none close = return e true
on_kind w e none none none payload (some close) = reconnect w e >>= λ e _. return e true
on_kind w e none none none payload none = return e true

-- ConsumerEngine::process_message
unfoldable pub process_message : World → ConsumerEngine → Message → Done Bool
unfolding on_kind
process_message w e m =
    on_kind w e m.command.reached_end_of_topic m.command.active_consumer_change m.command.message
      m.payload m.command.close_consumer

-- How many messages a message counts for.
abbrev pub batch_count : Option ℤ → ℤ
batch_count none = pos 1
batch_count (some n) = n

abbrev pub counted : Option (Payload MessageMetadata) → ℤ
counted none = pos 1
counted (some p) = batch_count p.metadata.num_messages_in_batch

-- What a turn ends with: `none` to go on, or the result of the loop.
pub record Turn : Type 0 where
  pub engine : ConsumerEngine
  pub effects : List Effect
  pub outcome : Option (Result EngineError (Unit {0}))

-- The match on the result of `process_message`; the failure goes to the consumer if it listens.
unfoldable pub on_result : Bool → ConsumerEngine → List Effect → Result EngineError Bool → Turn
on_result tx_open e es (ok true) = record { engine = e; effects = es; outcome = none }
on_result tx_open e es (ok false) = record { engine = e; effects = es; outcome = some (ok tt) }
on_result true e es (err x) = record {
  engine = e;
  effects = es ++ failure_delivered x ∷ [];
  outcome = none;
}
on_result false e es (err x) = record { engine = e; effects = es; outcome = some (err tx_closed) }

-- ConsumerEngine::handle_message_opt
unfoldable pub handle_message_opt : World → ConsumerEngine → Option Message → Turn
unfolding on_result
handle_message_opt w e none = record { engine = e; effects = []; outcome = none }
handle_message_opt w e (some message) =
    let d =
      process_message w
        (record e { remaining_messages = e.remaining_messages -ℤ counted message.payload })
        message in
    on_result w.tx_open d.engine d.effects d.result

-- The requests of the consumer; a `get_connection` names the sender that wants the connection.
pub data EngineMessage : Type 0 where
  ack_message : MessageIdData → Bool → EngineMessage
  nack : MessageIdData → EngineMessage
  unacked_redelivery : EngineMessage
  get_connection : ℕ → EngineMessage

-- The ids whose time has passed.
unfoldable pub expired : {K : Type 0} → ℕ → Map K ℕ → List K
expired now [] = []
expired now ((id, t) ∷ m) = if ltb t now then id ∷ expired now m else expired now m

unfoldable pub remove_all : {K : Type 0} ⦃e : Eq K⦄ → List K → Map K ℕ → Map K ℕ
remove_all [] m = m
remove_all (id ∷ ids) m = remove_all ids (remove id m)

unfoldable pub redeliver : (List MessageIdData → Bool) → ConsumerEngine → List MessageIdData → Turn
redeliver accepted e [] = record { engine = e; effects = []; outcome = none }
redeliver accepted e (id ∷ ids) = record {
  engine =
      if accepted (id ∷ ids)
      then record e { unacked_messages = remove_all (id ∷ ids) e.unacked_messages }
      else e;
  effects = redelivery_asked (id ∷ ids) ∷ [];
  outcome = none;
}

-- ConsumerEngine::handle_ack_opt, where it answers `false` the loop ends with `Ok(())`.
unfoldable pub handle_ack_opt : World → ConsumerEngine → Option EngineMessage → Turn
unfolding redeliver
handle_ack_opt w e none = record { engine = e; effects = []; outcome = some (ok tt) }
handle_ack_opt w e (some (ack_message message_id cumulative)) =
    let d = ack e message_id cumulative in
    record { engine = d.engine; effects = d.effects; outcome = none }
handle_ack_opt w e (some (nack message_id)) = record {
  engine = e;
  effects = redelivery_asked (message_id ∷ []) ∷ [];
  outcome = none;
}
handle_ack_opt w e (some unacked_redelivery) =
    redeliver w.redelivery_accepted e (expired w.now e.unacked_messages)
handle_ack_opt w e (some (get_connection sender)) = record {
  engine = e;
  effects = [];
  outcome = none;
}

pub data EngineEvent : Type 0 where
  timeout terminated : EngineEvent
  message_event : Option Message → EngineEvent
  engine_event : Option EngineMessage → EngineEvent

unfoldable pub on_event : World → ConsumerEngine → EngineEvent → Turn
on_event w e timeout = record { engine = e; effects = []; outcome = none }
on_event w e (message_event m) = handle_message_opt w e m
on_event w e (engine_event m) = handle_ack_opt w e m
on_event w e terminated = record { engine = e; effects = []; outcome = some (ok tt) }

-- How `send_flow` ends.
pub data FlowAnswer : Type 0 where
  flow_sent flow_disconnected : FlowAnswer
  flow_failed : ℕ → FlowAnswer

-- `self.remaining_messages < (self.batch_size.div_ceil(2) as i64)`
abbrev pub is_low : ConsumerEngine → Bool
is_low e = ltb_ℤ e.remaining_messages (pos ((e.batch_size + 1) / 2))

-- The rest of a turn after a flow command was asked for.
unfoldable pub on_flow : World → ConsumerEngine → FlowAnswer → EngineEvent → Turn
unfolding on_event
on_flow w e flow_sent event =
    let t = on_event w (record e { remaining_messages = pos e.batch_size }) event in
    record t { effects = flow (as_u32 (pos e.batch_size -ℤ e.remaining_messages)) ∷ t.effects }
on_flow w e flow_disconnected event = record { engine = e; effects = []; outcome = none }
on_flow w e (flow_failed x) event = record {
  engine = e;
  effects = [];
  outcome = some (err (connection_error x));
}

unfoldable pub with_flow : World → ConsumerEngine → FlowAnswer → EngineEvent → Turn
unfolding on_flow on_event
with_flow w e answer event = if is_low e then on_flow w e answer event else on_event w e event

unfoldable pub after_reconnect :
    World → ConsumerEngine → Result EngineError (Unit {0}) → FlowAnswer → EngineEvent → Turn
unfolding with_flow
after_reconnect w e (ok u) answer event = with_flow w e answer event
after_reconnect w e (err x) answer event = record {
  engine = e;
  effects = [];
  outcome = some (err x);
}

-- One turn of the loop of `engine`. `broken` says that the connection is not valid and has an
-- error, and `event` is what comes next, if the turn gets so far.
unfoldable pub turn : World → ConsumerEngine → Bool → FlowAnswer → EngineEvent → Turn
unfolding with_flow after_reconnect
turn w e broken answer event =
    if broken
    then (let d = reconnect w e in after_reconnect w d.engine d.result answer event)
    else with_flow w e answer event
