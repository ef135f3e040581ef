-- ===== src/Discovery/Lookup.antt =====
-- The loop of ServiceDiscovery::lookup_topic in src/service_discovery.rs.
use pulsar_rdg_rs.Prelude.{
  ℕ, zero, suc, ◌+◌, Bool, true, false, Option, none, some, List, [], ◌∷◌, ◌++◌, Result, ok, err,
  ◌>>=◌, ◌&&◌, ◌||◌, ltb, if◌then◌else◌,
}
use pulsar_rdg_rs.Prelude.Int.{ℤ}
use pulsar_rdg_rs.Bytes.{Text}
use pulsar_rdg_rs.Errors.{
  ServerError, service_not_ready, metadata_error, server_error, ConnectionError, disconnected,
}
use pulsar_rdg_rs.Manager.{BrokerAddress}
use pulsar_rdg_rs.Discovery.{
  UrlCrate, CommandLookupTopicResponse, LookupResponse, ServiceDiscoveryError, connection, query,
  is_type, convert_lookup_response, broker_url_of, address_at,
}

-- The fields of OperationRetryOptions that the loop reads.
pub record LookupOptions : Type 0 where
  pub operation_timeout : ℕ
  pub retry_delay : ℕ
  pub max_retries : Option ℕ

-- The variables of the loop.
pub record State : Type 0 where
  pub conn : ℕ
  pub proxied_query : Bool
  pub is_authoritative : Bool
  pub broker_address : BrokerAddress
  pub current_retries : ℕ

-- What a turn is answered: the request; after a disconnection the connection and the request again;
-- the time since the start; and the connection to the address that was found.
pub record Turn : Type 0 where
  pub answer : Result ConnectionError CommandLookupTopicResponse
  pub reconnected : Result ConnectionError ℕ
  pub answered_again : Result ConnectionError CommandLookupTopicResponse
  pub elapsed : ℕ
  pub connected : Result ConnectionError ℕ

-- A request on a connection, a call of get_connection, and a delay.
pub data Effect : Type 0 where
  asks : (conn : ℕ) (is_authoritative : Bool) → Effect
  gets : BrokerAddress → Effect
  delays : ℕ → Effect

pub data Next : Type 0 where
  again : State → Next
  done : Result ServiceDiscoveryError BrokerAddress → Next

abbrev pub on_second :
    ℕ
    → Result ConnectionError CommandLookupTopicResponse
    → Result ServiceDiscoveryError (ℕ × CommandLookupTopicResponse)
on_second conn (ok res) = ok (conn, res)
on_second conn (err e) = err (connection e)

unfoldable pub on_reconnected :
    State
    → Turn
    → Result ConnectionError ℕ
    → List Effect × Result ServiceDiscoveryError (ℕ × CommandLookupTopicResponse)
on_reconnected s t (ok conn) = (
  asks s.conn s.is_authoritative ∷ gets s.broker_address ∷ asks conn s.is_authoritative ∷ [],
  on_second conn t.answered_again,
)
on_reconnected s t (err e) =
    (asks s.conn s.is_authoritative ∷ gets s.broker_address ∷ [], err (connection e))

-- The request, with the connection that it was answered on.
unfoldable pub ask :
    State
    → Turn
    → Result ConnectionError CommandLookupTopicResponse
    → List Effect × Result ServiceDiscoveryError (ℕ × CommandLookupTopicResponse)
unfolding on_reconnected
ask s t (ok res) = (asks s.conn s.is_authoritative ∷ [], ok (s.conn, res))
ask s t (err disconnected) = on_reconnected s t t.reconnected
ask s t (err e) = (asks s.conn s.is_authoritative ∷ [], err (connection e))

-- `and_then(server_error)`
abbrev pub error_of : Option ℤ → Option ServerError
error_of none = none
error_of (some i) = server_error i

unfoldable pub is_failed : Option ℤ → Bool
is_failed none = true
is_failed (some i) = is_type 2 (some i)

unfoldable pub is_transient : Option ServerError → Bool
is_transient (some service_not_ready) = true
is_transient (some metadata_error) = true
is_transient error = false

abbrev pub within_retry_budget : Option ℕ → ℕ → Bool
within_retry_budget none current_retries = true
within_retry_budget (some max) current_retries = ltb current_retries max

unfoldable pub on_failed :
    LookupOptions → State → ℕ → Option ServerError → Option Text → List Effect × Next
unfolding is_transient
on_failed options s elapsed error message =
    if is_transient error
      && (within_retry_budget options.max_retries s.current_retries
          && ltb elapsed options.operation_timeout)
    then (
      delays options.retry_delay ∷ [],
      again (record s { current_retries = s.current_retries + 1 }),
    )
    else ([], done (err (query error message)))

-- The address is found, and the client connects to it.
unfoldable pub on_address :
    State → LookupResponse → BrokerAddress → Result ConnectionError ℕ → List Effect × Next
on_address s r address (ok conn) = (
  gets address ∷ [],
  (if r.redirect
      then again record {
        conn = conn;
        proxied_query = address.proxy;
        is_authoritative = r.authoritative;
        broker_address = address;
        current_retries = s.current_retries;
      }
      else done (ok address)),
)
on_address s r address (err e) = (gets address ∷ [], done (err (connection e)))

module _ (urls : UrlCrate) (base_url : Text) (options : LookupOptions) where
  -- The answer, and the address that it names.
  unfoldable pub read_response :
      Bool
      → CommandLookupTopicResponse
      → Result ServiceDiscoveryError (LookupResponse × BrokerAddress)
  unfolding convert_lookup_response broker_url_of address_at
  read_response proxied_query res = convert_lookup_response urls res >>= λ r.
      broker_url_of urls base_url r >>= λ u.
      address_at urls base_url (proxied_query || r.proxy) u >>= λ address. ok (r, address)

  unfoldable pub on_read :
      State
      → Turn
      → Result ServiceDiscoveryError (LookupResponse × BrokerAddress)
      → List Effect × Next
  unfolding on_address
  on_read s t (ok (r, address)) = on_address s r address t.connected
  on_read s t (err e) = ([], done (err e))

  unfoldable pub on_lookup_response : State → Turn → CommandLookupTopicResponse → List Effect × Next
  unfolding is_failed on_failed on_read read_response
  on_lookup_response s t res =
      if is_failed res.response
      then on_failed options s t.elapsed (error_of res.error) res.message
      else on_read s t (read_response s.proxied_query res)

  abbrev pub before : List Effect → List Effect × Next → List Effect × Next
  before es (fs, next) = (es ++ fs, next)

  unfoldable pub on_asked :
      State
      → Turn
      → List Effect × Result ServiceDiscoveryError (ℕ × CommandLookupTopicResponse)
      → List Effect × Next
  unfolding on_lookup_response
  on_asked s t (es, ok (conn, res)) =
      before es (on_lookup_response (record s { conn = conn }) t res)
  on_asked s t (es, err e) = (es, done (err e))

  -- One turn of the loop.
  unfoldable pub turn_of : State → Turn → List Effect × Next
  unfolding ask on_asked
  turn_of s t = on_asked s t (ask s t t.answer)

  abbrev pub Run : Type 0
  Run = Option (List Effect × Result ServiceDiscoveryError BrokerAddress)

  abbrev pub prepend : List Effect → Run → Run
  prepend es none = none
  prepend es (some (fs, r)) = some (es ++ fs, r)

  unfoldable pub on_next : List Effect × Next → (State → Run) → Run
  on_next (es, again s) rest = prepend es (rest s)
  on_next (es, done r) rest = some (es, r)

  -- The loop of lookup_topic, from turn `i` on.
  unfoldable pub lookup_loop : ℕ → (ℕ → Turn) → ℕ → State → Run
  unfolding on_next turn_of
  lookup_loop zero turns i s = none
  lookup_loop (suc fuel) turns i s =
      on_next (turn_of s (turns i)) (λ s. lookup_loop fuel turns (suc i) s)

  -- ServiceDiscovery::lookup_topic, given the base address and how the connection to it ends.
  unfoldable pub lookup_topic : ℕ → (ℕ → Turn) → BrokerAddress → Result ConnectionError ℕ → Run
  unfolding lookup_loop
  lookup_topic fuel turns base (ok conn) = prepend (gets base ∷ []) (
      lookup_loop fuel turns 0 record {
        conn = conn;
        proxied_query = false;
        is_authoritative = false;
        broker_address = base;
        current_retries = 0;
      })
  lookup_topic fuel turns base (err e) = some (gets base ∷ [], err (connection e))
