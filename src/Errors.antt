-- ===== src/Errors.antt =====
-- src/error.rs, with the numbers of `enum ServerError` in PulsarApi.proto. An `io::Error` stands
-- here by its kind, an error of the TLS library or of a DNS name by a number.
pub mod Numbers
use pulsar_rdg_rs.Prelude.{ℕ, Bool, true, false, Option, none, some, ◌==◌, if◌then◌else◌}
use pulsar_rdg_rs.Prelude.Int.{ℤ, pos, negsuc}
use pulsar_rdg_rs.Bytes.{Text}

pub data ServerError : Type 0 where
  unknown_error metadata_error persistence_error authentication_error : ServerError
  authorization_error consumer_busy service_not_ready : ServerError
  producer_blocked_quota_exceeded_error producer_blocked_quota_exceeded_exception : ServerError
  checksum_error unsupported_version_error topic_not_found subscription_not_found : ServerError
  consumer_not_found too_many_requests topic_terminated_error producer_busy : ServerError
  invalid_topic_name incompatible_schema consumer_assign_error : ServerError
  transaction_coordinator_not_found invalid_txn_status not_allowed_error : ServerError
  transaction_conflict transaction_not_found producer_fenced : ServerError

-- `enum ServerError` of PulsarApi.proto.
unfoldable pub number : ServerError → ℕ
number unknown_error = 0
number metadata_error = 1
number persistence_error = 2
number authentication_error = 3
number authorization_error = 4
number consumer_busy = 5
number service_not_ready = 6
number producer_blocked_quota_exceeded_error = 7
number producer_blocked_quota_exceeded_exception = 8
number checksum_error = 9
number unsupported_version_error = 10
number topic_not_found = 11
number subscription_not_found = 12
number consumer_not_found = 13
number too_many_requests = 14
number topic_terminated_error = 15
number producer_busy = 16
number invalid_topic_name = 17
number incompatible_schema = 18
number consumer_assign_error = 19
number transaction_coordinator_not_found = 20
number invalid_txn_status = 21
number not_allowed_error = 22
number transaction_conflict = 23
number transaction_not_found = 24
number producer_fenced = 25

unfoldable pub server_error_at : ℕ → Option ServerError
server_error_at i =
    if i == 0
    then some unknown_error
    else if i == 1
    then some metadata_error
    else if i == 2
    then some persistence_error
    else if i == 3
    then some authentication_error
    else if i == 4
    then some authorization_error
    else if i == 5
    then some consumer_busy
    else if i == 6
    then some service_not_ready
    else if i == 7
    then some producer_blocked_quota_exceeded_error
    else if i == 8
    then some producer_blocked_quota_exceeded_exception
    else if i == 9
    then some checksum_error
    else if i == 10
    then some unsupported_version_error
    else if i == 11
    then some topic_not_found
    else if i == 12
    then some subscription_not_found
    else if i == 13
    then some consumer_not_found
    else if i == 14
    then some too_many_requests
    else if i == 15
    then some topic_terminated_error
    else if i == 16
    then some producer_busy
    else if i == 17
    then some invalid_topic_name
    else if i == 18
    then some incompatible_schema
    else if i == 19
    then some consumer_assign_error
    else if i == 20
    then some transaction_coordinator_not_found
    else if i == 21
    then some invalid_txn_status
    else if i == 22
    then some not_allowed_error
    else if i == 23
    then some transaction_conflict
    else if i == 24
    then some transaction_not_found
    else if i == 25
    then some producer_fenced
    else none

unfoldable pub server_error : ℤ → Option ServerError
unfolding server_error_at
server_error (pos i) = server_error_at i
server_error (negsuc i) = none

pub data ErrorKind : Type 0 where
  connection_refused connection_reset connection_aborted not_connected : ErrorKind
  broken_pipe timed_out interrupted unexpected_eof : ErrorKind
  other_kind : ℕ → ErrorKind

pub data AuthenticationError : Type 0 where
  custom retriable : Text → AuthenticationError

pub data ConnectionError : Type 0 where
  io : ErrorKind → ConnectionError
  slow_down disconnected : ConnectionError
  pulsar_error : Option ServerError → Option Text → ConnectionError
  unexpected not_supported decoding encoding : Text → ConnectionError
  socket_addr unexpected_response : Text → ConnectionError
  tls dns_name : ℕ → ConnectionError
  authentication : AuthenticationError → ConnectionError
  not_found canceled shutdown : ConnectionError

-- ConnectionError::establish_retryable
unfoldable pub establish_retryable : ConnectionError → Bool
establish_retryable (io connection_refused) = true
establish_retryable (io timed_out) = true
establish_retryable (authentication (retriable message)) = true
establish_retryable e = false
