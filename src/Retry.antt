-- ===== src/Retry.antt =====
-- src/retry_op.rs, with `allow_retry` of src/connection_manager.rs: operations that are tried
-- again. Connections and broker addresses are numbers. What the broker answers, and how the lookup
-- and the new connection before the next attempt end, is given for each attempt; what the broker
-- answers after a success is given for each connection.
pub mod Trying
pub mod Outcome
pub mod Subscribing
use pulsar_rdg_rs.Prelude.{
  ℕ, zero, suc, Bool, true, false, Option, none, some, List, [], ◌∷◌, ◌++◌, Result, ok, err, ◌>>=◌,
  ltb, if◌then◌else◌,
}
use pulsar_rdg_rs.Bytes.{Bytes, Text}
use pulsar_rdg_rs.Errors.{
  ServerError, service_not_ready, consumer_busy, producer_busy,
  producer_blocked_quota_exceeded_error, producer_blocked_quota_exceeded_exception, ErrorKind,
  connection_reset, connection_aborted, not_connected, broken_pipe, timed_out, interrupted,
  unexpected_eof, ConnectionError, pulsar_error, io,
}

pub record OperationRetryOptions : Type 0 where
  pub retry_delay : ℕ
  pub max_retries : Option ℕ

-- OperationRetryOptions::allow_retry
unfoldable pub allow_retry : Option ℕ → ℕ → Bool
allow_retry none current = true
allow_retry (some max_retries) current = ltb current max_retries

-- The tests of handle_retry_error, of the broker's errors and of the stream's.
unfoldable pub is_server_retryable : ServerError → Bool
is_server_retryable service_not_ready = true
is_server_retryable consumer_busy = true
is_server_retryable producer_busy = true
is_server_retryable producer_blocked_quota_exceeded_error = true
is_server_retryable producer_blocked_quota_exceeded_exception = true
is_server_retryable kind = false

unfoldable pub is_io_retryable : ErrorKind → Bool
is_io_retryable connection_reset = true
is_io_retryable connection_aborted = true
is_io_retryable not_connected = true
is_io_retryable broken_pipe = true
is_io_retryable timed_out = true
is_io_retryable interrupted = true
is_io_retryable unexpected_eof = true
is_io_retryable kind = false

unfoldable pub retryable : ConnectionError → Bool
unfolding is_server_retryable is_io_retryable
retryable (pulsar_error (some kind) text) = is_server_retryable kind
retryable (io kind) = is_io_retryable kind
retryable e = false

-- The errors that the caller gets: the operation's own, or those of the lookup or the connection,
-- or of the permits that a consumer sends.
pub data RetryError : Type 0 where
  operation_failed : ConnectionError → RetryError
  client_failed : ℕ → RetryError
  flow_failed : ConnectionError → RetryError

pub record Attempt (A : Type 0) : Type 0 where
  pub answer : Result ConnectionError A
  pub looked_up : Result RetryError ℕ
  pub connected : Result RetryError ℕ

-- A request, a delay, a wait for exclusive access, and permits; each but the delay on a connection.
pub data Effect : Type 0 where
  asked : (conn : ℕ) → Effect
  delayed : ℕ → Effect
  awaited : (conn : ℕ) → (request_id : ℕ) → Effect
  flowed : (conn : ℕ) → (consumer_id : ℕ) → (batch_size : ℕ) → Effect

-- handle_retry_error: what it does, and the connection for the next attempt.
unfoldable pub handle_retry_error :
    {A : Type 0}
    → OperationRetryOptions
    → ℕ
    → ConnectionError
    → Attempt A
    → List Effect × Result RetryError ℕ
handle_retry_error options current_retries e a =
    if retryable e
    then (if allow_retry options.max_retries current_retries
        then (delayed options.retry_delay ∷ [], a.looked_up >>= λ addr. a.connected)
        else ([], err (operation_failed e)))
    else ([], err (operation_failed e))

-- What was done, what `connection` refers to then, and the result.
abbrev pub Run : Type 0 → Type 0
Run B = Option (List Effect × ℕ × Result RetryError B)

abbrev pub prepend : {B : Type 0} → List Effect → Run B → Run B
prepend es none = none
prepend es (some (fs, connection, r)) = some (es ++ fs, connection, r)

unfoldable pub on_retry : {B : Type 0} → ℕ → List Effect × Result RetryError ℕ → (ℕ → Run B) → Run B
on_retry connection (es, ok reconnected) rest = prepend es (rest reconnected)
on_retry connection (es, err e) rest = some (es, connection, err e)

-- How an operation goes on after a success on a connection.
abbrev pub Finish : Type 0 → Type 0 → Type 0
Finish A B = ℕ → A → List Effect × Result RetryError B

abbrev pub finished : {B : Type 0} → ℕ → List Effect × Result RetryError B → Run B
finished connection (es, r) = some (asked connection ∷ es, connection, r)

unfoldable pub on_answer :
    {A : Type 0} {B : Type 0}
    → OperationRetryOptions
    → Finish A B
    → ℕ
    → ℕ
    → Attempt A
    → Result ConnectionError A
    → (ℕ → Run B)
    → Run B
unfolding handle_retry_error on_retry
on_answer options finish connection n a (ok success) rest =
    finished connection (finish connection success)
on_answer options finish connection n a (err e) rest =
    prepend (asked connection ∷ []) (on_retry connection (handle_retry_error options n e a) rest)

-- The loop of `retry_subscribe_consumer` and of `retry_create_producer`, from attempt `n` on.
unfoldable pub retry_loop :
    {A : Type 0} {B : Type 0}
    → ℕ
    → OperationRetryOptions
    → Finish A B
    → (ℕ → Attempt A)
    → ℕ
    → ℕ
    → Run B
unfolding on_answer
retry_loop zero options finish attempts connection n = none
retry_loop (suc fuel) options finish attempts connection n =
    on_answer options finish connection n (attempts n) (attempts n).answer
      (λ reconnected. retry_loop fuel options finish attempts reconnected (suc n))

-- The first line of both: a connection to the address, or its error.
unfoldable pub with_connection : {B : Type 0} → ℕ → Result RetryError ℕ → (ℕ → Run B) → Run B
with_connection connection (ok got) rest = rest got
with_connection connection (err e) rest = some ([], connection, err e)

-- The end of retry_subscribe_consumer.
unfoldable pub on_subscribed :
    {A : Type 0} → ℕ → ℕ → (ℕ → Result ConnectionError (Unit {0})) → ℕ → Finish A ℕ
on_subscribed consumer_id batch_size flow messages connection success =
    (flowed connection consumer_id batch_size ∷ [], flow_result (flow connection))
  where
    flow_result : Result ConnectionError (Unit {0}) → Result RetryError ℕ
    flow_result (ok done) = ok messages
    flow_result (err e) = err (flow_failed e)

-- `messages` names the channel that the subscription fills.
unfoldable pub retry_subscribe_consumer :
    {A : Type 0}
    → ℕ
    → OperationRetryOptions
    → ℕ
    → ℕ
    → (ℕ → Result ConnectionError (Unit {0}))
    → ℕ
    → (ℕ → Attempt A)
    → Result RetryError ℕ
    → ℕ
    → Run ℕ
unfolding with_connection retry_loop on_subscribed
retry_subscribe_consumer fuel options consumer_id batch_size flow messages attempts got connection =
    with_connection connection got (λ c.
      retry_loop fuel options (on_subscribed consumer_id batch_size flow messages) attempts c 0)

pub record CommandProducerSuccess : Type 0 where
  pub request_id : ℕ
  pub producer_name : Text
  pub schema_version : Option Bytes
  pub producer_ready : Option Bool

abbrev pub is_unready : Option Bool → Bool
is_unready (some false) = true
is_unready ready = false

-- The schema version after the wait: the final one, if there is one.
abbrev pub updated : Option Bytes → Option Bytes → Option Bytes
updated schema_version (some new_sv) = some new_sv
updated schema_version none = schema_version

unfoldable pub on_waited :
    CommandProducerSuccess
    → Result ConnectionError CommandProducerSuccess
    → Result RetryError (Text × Option Bytes)
on_waited partial_success (ok success) =
    ok
      (partial_success.producer_name, updated partial_success.schema_version success.schema_version)
on_waited partial_success (err e) = err (operation_failed e)

-- The end of retry_create_producer, where `wait` is what wait_for_exclusive_access gives.
unfoldable pub on_created :
    (ℕ → Result ConnectionError CommandProducerSuccess)
    → Finish CommandProducerSuccess (Text × Option Bytes)
unfolding on_waited
on_created wait connection partial_success =
    if is_unready partial_success.producer_ready
    then (
      awaited connection partial_success.request_id ∷ [],
      on_waited partial_success (wait connection),
    )
    else ([], ok (partial_success.producer_name, partial_success.schema_version))

unfoldable pub retry_create_producer :
    ℕ
    → OperationRetryOptions
    → (ℕ → Result ConnectionError CommandProducerSuccess)
    → (ℕ → Attempt CommandProducerSuccess)
    → Result RetryError ℕ
    → ℕ
    → Run (Text × Option Bytes)
unfolding with_connection retry_loop on_created
retry_create_producer fuel options wait attempts got connection =
    with_connection connection got (λ c. retry_loop fuel options (on_created wait) attempts c 0)
