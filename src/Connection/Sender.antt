-- ===== src/Connection/Sender.antt =====
-- src/connection.rs: `ConnectionSender`, how it sends a request and takes the answer. Its two
-- channels to the sink are lists, the answer's oneshot channel is named by a number, and the wait
-- for the answer or the timeout is given.
use pulsar_rdg_rs.Prelude.{
  ℕ, Bool, not, ◌&&◌, Option, none, some, List, [], ◌∷◌, ◌++◌, Result, ok, err, ltb, length,
  if◌then◌else◌,
}
use pulsar_rdg_rs.Errors.{
  ConnectionError, io, timed_out, slow_down, disconnected, pulsar_error, unexpected_response,
  server_error, not_supported,
}
use pulsar_rdg_rs.Bytes.{Text}
use pulsar_rdg_rs.Proto.{BaseCommand, Requested, CommandError}
use pulsar_rdg_rs.Connection.{Message, Register, request, register_consumer, remove_consumer}
use pulsar_rdg_rs.Connection.Keys.{RequestKey, producer_send}

pub data SendChannel : Type 0 where
  control data_blocking data_try_send : SendChannel

-- What the tasks of a connection share with its sender, and the feature of PIP-344 that the broker
-- has announced; a channel is open while its receiver lives.
pub record Channels : Type 0 where
  pub registrations : List Register
  pub registrations_open : Bool
  pub control_queue : List Message
  pub control_open : Bool
  pub data_queue : List Message
  pub data_open : Bool
  pub capacity : ℕ
  pub error : Option ConnectionError
  pub supports_without_auto_creation : Bool

-- The message is on its way, waits for room, or is refused.
pub data Begun : Type 0 where
  begun blocked : Begun
  refused : ConnectionError → Begun

abbrev pub push_control : Message → Channels → Channels
push_control msg c = record c { control_queue = c.control_queue ++ msg ∷ [] }

abbrev pub push_data : Message → Channels → Channels
push_data msg c = record c { data_queue = c.data_queue ++ msg ∷ [] }

abbrev pub has_room : Channels → Bool
has_room c = ltb (length c.data_queue) c.capacity

-- The match on `via`.
unfoldable pub send_via : SendChannel → Message → Channels → Channels × Begun
send_via control msg c =
    if c.control_open then (push_control msg c, begun) else (c, refused disconnected)
send_via data_blocking msg c =
    if c.data_open
    then (if has_room c then (push_data msg c, begun) else (c, blocked))
    else (c, refused disconnected)
send_via data_try_send msg c =
    if c.data_open
    then (if has_room c then (push_data msg c, begun) else (c, refused slow_down))
    else (c, refused disconnected)

abbrev pub registered : RequestKey → ℕ → Channels → Channels
registered key resolver c = record c {
  registrations = c.registrations ++ request key resolver ∷ [];
}

-- send_message_non_blocking up to the future that it returns.
unfoldable pub begin : RequestKey → ℕ → Message → SendChannel → Channels → Channels × Begun
unfolding send_via
begin key resolver msg via c =
    if c.registrations_open
    then send_via via msg (registered key resolver c)
    else (c, refused disconnected)

abbrev pub or_unexpected : {A : Type 0} → Text → Option A → Result ConnectionError A
or_unexpected text none = err (unexpected_response text)
or_unexpected text (some extracted) = ok extracted

abbrev pub or_error :
    {A : Type 0} → Option CommandError → Result ConnectionError A → Result ConnectionError A
or_error (some e) rest = err (pulsar_error (server_error e.error) (some e.message))
or_error none rest = rest

-- extract_message, where `debug` is what `{:?}` prints of the command.
unfoldable pub extract_message :
    {A : Type 0} → (BaseCommand → Text) → (Message → Option A) → Message → Result ConnectionError A
extract_message debug extract msg =
    or_error msg.command.error (or_unexpected (debug msg.command) (extract msg))

-- What `select` of the answer and the delay gives.
pub data Reply : Type 0 where
  answered : Message → Reply
  canceled delay_elapsed : Reply

-- The future that send_message_non_blocking returns.
unfoldable pub on_reply :
    {A : Type 0}
    → (BaseCommand → Text)
    → (Message → Option A)
    → Reply
    → Channels
    → Channels × Result ConnectionError A
unfolding extract_message
on_reply debug extract (answered msg) c = (c, extract_message debug extract msg)
on_reply debug extract canceled c = (record c { error = some disconnected }, err disconnected)
on_reply debug extract delay_elapsed c =
    (record c { error = some (io timed_out) }, err (io timed_out))

-- The methods that send a request with an id and wait for the answer or the timeout, with the
-- arguments that decide what they do besides.
pub data Rpc : Type 0 where
  lookup_topic get_consumer_stats get_last_message_id create_producer : Rpc
  get_topics_of_namespace close_producer seek unsubscribe get_schema : Rpc
  lookup_partitioned_topic : (metadata_auto_creation_enabled : Bool) → Rpc
  subscribe : (consumer_id : ℕ) → (resolver : ℕ) → Rpc
  close_consumer : (consumer_id : ℕ) → Rpc

-- The sub-command that each of them takes out of its answer.
unfoldable pub extract : Rpc → Message → Option Requested
extract lookup_topic msg = msg.command.lookup_topic_response
extract (lookup_partitioned_topic enabled) msg = msg.command.partition_metadata_response
extract get_consumer_stats msg = msg.command.consumer_stats_response
extract get_last_message_id msg = msg.command.get_last_message_id_response
extract create_producer msg = msg.command.producer_success
extract get_topics_of_namespace msg = msg.command.get_topics_of_namespace_response
extract close_producer msg = msg.command.success
extract (subscribe consumer_id resolver) msg = msg.command.success
extract (close_consumer consumer_id) msg = msg.command.success
extract seek msg = msg.command.success
extract unsubscribe msg = msg.command.success
extract get_schema msg = msg.command.get_schema_response

-- The registration that `subscribe` and `close_consumer` make before their request.
unfoldable pub announce : Register → Channels → (Channels → Channels × Begun) → Channels × Begun
announce register c rest =
    if c.registrations_open
    then rest (record c { registrations = c.registrations ++ register ∷ [] })
    else (record c { error = some disconnected }, refused disconnected)

-- Each of them up to the wait, where `key` is the new request's, `out` its message, and `refusal`
-- the text for a broker that cannot look up a topic without creating it.
unfoldable pub call : Text → Rpc → RequestKey → ℕ → Message → Channels → Channels × Begun
unfolding begin announce
call refusal (lookup_partitioned_topic enabled) key tx out c =
    if not enabled && not c.supports_without_auto_creation
    then (c, refused (not_supported refusal))
    else begin key tx out control c
call refusal (subscribe consumer_id resolver) key tx out c =
    announce (register_consumer consumer_id resolver) c (λ c. begin key tx out control c)
call refusal (close_consumer consumer_id) key tx out c =
    announce (remove_consumer consumer_id) c (λ c. begin key tx out control c)
call refusal rpc key tx out c = begin key tx out control c

-- wait_exclusive_access up to the wait: it registers the request again and sends nothing.
unfoldable pub wait_exclusive_access : RequestKey → ℕ → Channels → Channels × Begun
wait_exclusive_access key tx c =
    if c.registrations_open then (registered key tx c, begun) else (c, refused disconnected)

-- Its wait, which has no timeout: `none` is the cancelled channel.
unfoldable pub on_access :
    (BaseCommand → Text) → Option Message → Channels → Channels × Result ConnectionError Requested
unfolding extract_message
on_access debug (some msg) c = (c, extract_message debug (λ m. m.command.producer_success) msg)
on_access debug none c = (record c { error = some disconnected }, err disconnected)

-- ConnectionSender::send
unfoldable pub send : ℕ → ℕ → ℕ → Message → Bool → Channels → Channels × Begun
unfolding begin
send producer_id sequence_id resolver msg block_if_queue_full c =
    begin (producer_send producer_id sequence_id) resolver msg
      (if block_if_queue_full then data_blocking else data_try_send) c
