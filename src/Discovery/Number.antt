-- ===== src/Discovery/Number.antt =====
-- src/service_discovery.rs: lookup_partitioned_topic_number_with_options, with the refusal of
-- lookup_partitioned_topic in src/connection.rs. What each turn of its loop is answered is given.
use pulsar_rdg_rs.Prelude.{
  ℕ, zero, suc, ◌+◌, Bool, true, false, not, Option, none, some, List, [], ◌∷◌, ◌++◌, Result, ok,
  err, ◌&&◌, if◌then◌else◌,
}
use pulsar_rdg_rs.Prelude.Int.{ℤ}
use pulsar_rdg_rs.Bytes.{Text}
use pulsar_rdg_rs.Errors.{
  ServerError, service_not_ready, ConnectionError, disconnected, not_supported,
}
use pulsar_rdg_rs.Discovery.{ServiceDiscoveryError, connection, query, is_type}
use pulsar_rdg_rs.Discovery.Lookup.{error_of, within_retry_budget}
use pulsar_rdg_rs.Partitions.{is_topic_partition_name}

pub record CommandPartitionedTopicMetadataResponse : Type 0 where
  pub partitions : Option ℕ
  pub response : Option ℤ
  pub error : Option ℤ
  pub message : Option Text

-- The fields of OperationRetryOptions that the loop reads, the caller's flag, and the text with
-- which the connection refuses.
pub record Options : Type 0 where
  pub retry_delay : ℕ
  pub max_retries : Option ℕ
  pub metadata_auto_creation_enabled : Bool
  pub refusal : Text

-- A connection, and whether its broker has announced that it looks up without creating (PIP-344).
pub record Sender : Type 0 where
  pub conn : ℕ
  pub supports_without_auto_creation : Bool

-- What a turn is answered: the request; after a disconnection the base connection and the request
-- on it.
pub record NumberTurn : Type 0 where
  pub answer : Result ConnectionError CommandPartitionedTopicMetadataResponse
  pub reconnected : Result ConnectionError Sender
  pub answered_again : Result ConnectionError CommandPartitionedTopicMetadataResponse

-- A request that goes out, a call of get_base_connection, and a delay.
pub data NumberEffect : Type 0 where
  asks : ℕ → NumberEffect
  gets_base : NumberEffect
  delays : ℕ → NumberEffect

-- ConnectionSender::lookup_partitioned_topic, where `answer` is what its send_message gives.
unfoldable pub request_metadata :
    Options
    → Sender
    → Result ConnectionError CommandPartitionedTopicMetadataResponse
    → List NumberEffect × Result ConnectionError CommandPartitionedTopicMetadataResponse
request_metadata o s answer =
    if not o.metadata_auto_creation_enabled && not s.supports_without_auto_creation
    then ([], err (not_supported o.refusal))
    else (asks s.conn ∷ [], answer)

abbrev pub Asked : Type 0
Asked =
    List NumberEffect
    × Result ServiceDiscoveryError (Sender × CommandPartitionedTopicMetadataResponse)

abbrev pub answered_by :
    Sender
    → List NumberEffect × Result ConnectionError CommandPartitionedTopicMetadataResponse
    → Asked
answered_by s (effects, ok res) = (effects, ok (s, res))
answered_by s (effects, err e) = (effects, err (connection e))

abbrev pub before : List NumberEffect → Asked → Asked
before effects (more, r) = (effects ++ more, r)

unfoldable pub on_base : Options → NumberTurn → Result ConnectionError Sender → Asked
unfolding request_metadata
on_base o t (ok s) = before (gets_base ∷ []) (answered_by s (request_metadata o s t.answered_again))
on_base o t (err e) = (gets_base ∷ [], err (connection e))

-- The inner match on the request's result.
unfoldable pub on_request :
    Options
    → Sender
    → NumberTurn
    → List NumberEffect × Result ConnectionError CommandPartitionedTopicMetadataResponse
    → Asked
unfolding on_base
on_request o s t (effects, ok res) = (effects, ok (s, res))
on_request o s t (effects, err disconnected) = before effects (on_base o t t.reconnected)
on_request o s t (effects, err e) = (effects, err (connection e))

-- `response` is missing or says Failed.
abbrev pub is_refused : Option ℤ → Bool
is_refused none = true
is_refused (some i) = is_type 1 (some i)

abbrev pub is_service_not_ready : Option ServerError → Bool
is_service_not_ready (some service_not_ready) = true
is_service_not_ready error = false

-- The `match` behind the loop.
abbrev pub partitions_of :
    Option ℕ → CommandPartitionedTopicMetadataResponse → Result ServiceDiscoveryError ℕ
partitions_of (some partitions) response = ok partitions
partitions_of none response = err (query (error_of response.error) response.message)

-- `continue` on a connection, or the end.
pub data NumberNext : Type 0 where
  again : Sender → NumberNext
  done : Result ServiceDiscoveryError ℕ → NumberNext

unfoldable pub on_metadata :
    Options → ℕ → Sender → CommandPartitionedTopicMetadataResponse → List NumberEffect × NumberNext
on_metadata o current_retries s res =
    if is_refused res.response
    then (if is_service_not_ready (error_of res.error)
          && within_retry_budget o.max_retries current_retries
        then (delays o.retry_delay ∷ [], again s)
        else ([], done (err (query (error_of res.error) res.message))))
    else ([], done (partitions_of res.partitions res))

abbrev pub on_number_asked : Options → ℕ → Asked → List NumberEffect × NumberNext
on_number_asked o current_retries (effects, ok (s, res)) =
    (effects ++ (on_metadata o current_retries s res).0, (on_metadata o current_retries s res).1)
on_number_asked o current_retries (effects, err e) = (effects, done (err e))

-- A turn of the loop.
unfoldable pub number_turn : Options → ℕ → Sender → NumberTurn → List NumberEffect × NumberNext
unfolding request_metadata on_request on_metadata
number_turn o current_retries s t =
    on_number_asked o current_retries (on_request o s t (request_metadata o s t.answer))

abbrev pub Ended : Type 0
Ended = List NumberEffect × Result ServiceDiscoveryError ℕ

abbrev pub after_effects : List NumberEffect → Option Ended → Option Ended
after_effects effects none = none
after_effects effects (some (more, r)) = some (effects ++ more, r)

abbrev pub on_next : (Sender → Option Ended) → List NumberEffect × NumberNext → Option Ended
on_next rest (effects, again s) = after_effects effects (rest s)
on_next rest (effects, done r) = some (effects, r)

-- The loop on fuel, where `none` means that the fuel ran out. The turns are numbered by the
-- retries.
unfoldable pub number_loop : ℕ → Options → (ℕ → NumberTurn) → ℕ → Sender → Option Ended
unfolding number_turn
number_loop zero o turns current_retries s = none
number_loop (suc fuel) o turns current_retries s =
    on_next (number_loop fuel o turns (current_retries + 1))
      (number_turn o current_retries s (turns current_retries))

unfoldable pub with_base :
    ℕ → Options → (ℕ → NumberTurn) → Result ConnectionError Sender → Option Ended
unfolding number_loop
with_base fuel o turns (ok s) = after_effects (gets_base ∷ []) (number_loop fuel o turns 0 s)
with_base fuel o turns (err e) = some (gets_base ∷ [], err (connection e))

-- lookup_partitioned_topic_number_with_options, where `base` is the first base connection.
unfoldable pub lookup_number :
    ℕ → Options → (ℕ → NumberTurn) → Result ConnectionError Sender → Text → Option Ended
unfolding with_base is_topic_partition_name
lookup_number fuel o turns base topic =
    if o.metadata_auto_creation_enabled && is_topic_partition_name topic
    then some ([], ok 0)
    else with_base fuel o turns base
