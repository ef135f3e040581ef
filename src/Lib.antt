-- ===== src/Lib.antt =====
-- A model of pulsar-rdg-rs, a Rust client of Apache Pulsar, and theorems about it.
--
-- A connection writes and reads frames. A task per connection, the receiver, hands each message
-- that comes in to whoever waits for it: an answer to the sender of its request, a consumer's
-- messages to that consumer. A producer turns the user's messages into frames, by itself or in
-- batches that a loop collects and a second loop sends; a producer of a partitioned topic chooses a
-- partition first. A consumer's engine takes the messages out of frames and batches, drops those
-- before the start position, hands the others over or sends them to a dead letter topic, keeps
-- track of what is not acknowledged, and asks the broker for more. Producers and consumers get
-- their connections from a manager, which all tasks of a client share, and ask a broker for the
-- address of a topic first.
--
-- The modules and the code that they model:
--   Bytes, Codec: src/message.rs, the frames (Codec::encode, Codec::decode, command_frame,
--     payload_frame). Codec.Frames has the parsers.
--   Proto: PulsarApi.proto, the messages that the modelled code builds or reads.
--   Batch: src/message.rs (BatchedMessage, parse_batched_message) and
--     src/consumer/batched_message_iterator.rs.
--   Producer: src/producer.rs. Producer.Message has the messages and their keys, Producer.Batching
--     batch_process_loop, Producer.Compressing compress_message, Producer.Resending
--     send_message, Producer.Sending a turn of message_send_loop and, from src/connection.rs, the
--     payload of messages::send.
--   Routing: src/routing_policy.rs and PartitionedProducer::choose_partition of src/producer.rs.
--   Connection: Receiver of src/connection.rs; Connection.Keys has Message::request_key, and
--     Connection.Sender the way of a request through ConnectionSender (send_message_non_blocking,
--     wait_exclusive_access and the methods that use them).
--   Consumer: src/consumer/engine.rs (Start, Engine, Deliver and Steps), src/consumer/topic.rs
--     (Topic) and src/consumer/multi.rs (Multi, with Multi.Updating for update_topics and
--     Multi.Polling for poll_next). Consumer.Multi.Running puts the engines and the caller around it,
--     and Consumer.Builder is src/consumer/builder.rs.
--   Reader: src/reader.rs, poll_next.
--   Authentication: src/authentication/oauth2.rs, the cached token and auth_data.
--   Errors: src/error.rs, the connection errors and the numbers of the broker's errors.
--   Manager: src/connection_manager.rs, what a task does to a broker's entry in the table of
--     connections (get_connection, connect_inner, connect, check_connections). Manager.Dialing has
--     the loop that opens a connection, Manager.Steps the whole table with the tasks' steps in any
--     order.
--   Partitions: the names and the lookup of a topic's partitions in src/service_discovery.rs, and in
--     Partitions.Building ProducerBuilder::build and refresh_partitions of src/producer.rs. Decimal
--     has the numbers in names.
--   Discovery: src/service_discovery.rs, convert_lookup_response and, in Discovery.Lookup, the loop of
--     lookup_topic, which runs on a number of turns; Discovery.Number has
--     lookup_partitioned_topic_number_with_options.
--   Retry: src/retry_op.rs, both functions and handle_retry_error.
--   Prelude: what the others share. Tests: concrete inputs.
-- The other modules prove; each says of what.
--
-- Bytes and numbers are natural numbers, with the wrap-around of casts and of 32-bit hashing
-- written out; additions of counters that the program never brings near their limits are not
-- wrapped. Text is a list of code points. Maps are association lists, so the order of a HashMap's
-- entries is that of insertion; the table of connections, of which the order is never read, is a
-- function. A channel's end or a oneshot sender is a number, and what goes into channels is a list
-- of effects. A loop that waits is a function on events, one turn at a time. The iterator of a
-- batch runs on fuel, one more than it has messages; the loops of retries and of opening a
-- connection on a number of rounds, one more than the retries that are allowed; and the lookup of a
-- topic on a number of turns, one more than those up to the deadline and the last redirect. The
-- lookup of the number of partitions runs on a number of turns, one more than the retries that are
-- allowed, and the rotation of a consumer of several topics on as many rounds as it has topics.
-- send_message runs on a number of rounds, one more than the connections that are lost. The tasks
-- that share a table of connections take steps in any order.
--
-- Third-party code is a parameter: prost (Protobuf, with IsProtobuf for its documented inverse),
-- the CRC, base64 (Base64), murmur3, the url crate (UrlCrate), the compressors (IsDecompressor for
-- what their decompressors undo). So are the answers of the broker and the network: whether a send
-- succeeds, how a reconnection ends, what time it is.
--
-- Not modelled: the set-up of streams, TLS and the HTTP requests of OAuth2, the admin API,
-- executors, and the facade of clients and consumers, which do I/O or pass calls on; and so far the
-- builder of a client, the closing of producers, send_ping and most command builders, and the
-- requests that a consumer of several topics hands on to one of them.
pub mod Prelude
pub mod Bytes
pub mod Proto
pub mod Codec
pub mod Batch
pub mod Producer
pub mod Routing
pub mod Authentication
pub mod Connection
pub mod Consumer
pub mod Decimal
pub mod Discovery
pub mod Errors
pub mod Manager
pub mod Partitions
pub mod Reader
pub mod Retry
pub mod Tests
