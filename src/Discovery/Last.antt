-- ===== src/Discovery/Last.antt =====
-- A turn of a topic's lookup that comes after the deadline and is no redirect is the last.
use pulsar_rdg_rs.Prelude.{
  ℕ, ◌≤◌, ◌≡◌, Bool, false, Option, List, [], ◌∷◌, Result, ok, err, ◌>>=◌, ◌||◌, ltb, arith,
  Bool-cases, inl, inr,
}
use pulsar_rdg_rs.Bytes.{Text}
use pulsar_rdg_rs.Errors.{ServerError, ConnectionError, disconnected}
use pulsar_rdg_rs.Manager.{BrokerAddress}
use pulsar_rdg_rs.Producer.Message.{unwrap_or}
use pulsar_rdg_rs.Discovery.{
  UrlCrate, CommandLookupTopicResponse, LookupResponse, ServiceDiscoveryError, is_type,
  convert_lookup_response, broker_url_of, address_at, parse_optional,
}
use pulsar_rdg_rs.Discovery.Lookup.{
  LookupOptions, State, Turn, Effect, asks, Next, again, done, on_second, on_reconnected, ask,
  error_of, is_failed, is_transient, within_retry_budget, on_failed, on_address, read_response,
  on_read, on_lookup_response, before, on_asked,
}

abbrev pub IsDone : List Effect × Next → Type 0
IsDone (es, again s) = ⊥
IsDone (es, done r) = Unit

-- The answer is no redirect.
abbrev pub IsFinal : Result ConnectionError CommandLookupTopicResponse → Type 0
IsFinal (ok res) = is_type 0 res.response ≡ false
IsFinal (err e) = Unit

abbrev pub IsRead : Result ServiceDiscoveryError (LookupResponse × BrokerAddress) → Type 0
IsRead (ok (r, address)) = r.redirect ≡ false
IsRead (err e) = Unit

abbrev pub IsDirect : Result ServiceDiscoveryError LookupResponse → Type 0
IsDirect (ok r) = r.redirect ≡ false
IsDirect (err e) = Unit

-- The turn comes after the deadline and brings no redirect.
pub record IsLast (options : LookupOptions) (t : Turn) : Type 0 where
  pub late : options.operation_timeout ≤ t.elapsed
  pub answered : IsFinal t.answer
  pub answered_again : IsFinal t.answered_again

on_failed-late :
    (options : LookupOptions) (s : State) (elapsed : ℕ) (error : Option ServerError)
    (message : Option Text)
    → options.operation_timeout ≤ elapsed
    → IsDone (on_failed options s elapsed error message)
unfolding on_failed
on_failed-late options s elapsed error message h =
    let late : ltb elapsed options.operation_timeout ≡ false = ground arith in
    elim (Bool-cases (is_transient error)) [
      | inl e ↦ elim (Bool-cases (within_retry_budget options.max_retries s.current_retries)) [
        | inl f ↦ rw (late, e, f) tt
        | inr f ↦ rw (late, e, f) tt
      ]
      | inr e ↦ rw e tt
    ]

on_address-final :
    (s : State) (r : LookupResponse) (address : BrokerAddress) (c : Result ConnectionError ℕ)
    → r.redirect ≡ false
    → IsDone (on_address s r address c)
unfolding on_address
on_address-final s r address (ok conn) h = rw h tt
on_address-final s r address (err e) h = tt

IsRead-address :
    (r : LookupResponse) (x : Result ServiceDiscoveryError BrokerAddress)
    → r.redirect ≡ false
    → IsRead (x >>= λ address. ok (r, address))
IsRead-address r (ok address) h = h
IsRead-address r (err e) h = tt

module _ (urls : UrlCrate) (base_url : Text) (options : LookupOptions) where
  IsRead-url :
      (proxied : Bool) (r : LookupResponse) (u : Result ServiceDiscoveryError (Option Text × ℕ))
      → r.redirect ≡ false
      → IsRead (u >>= λ u. address_at urls base_url proxied u >>= λ address. ok (r, address))
  IsRead-url proxied r (ok u) h = IsRead-address r (address_at urls base_url proxied u) h
  IsRead-url proxied r (err e) h = tt

  IsRead-converted :
      (proxied : Bool) (x : Result ServiceDiscoveryError LookupResponse)
      → IsDirect x
      → IsRead (
          x >>= λ r. broker_url_of urls base_url r >>= λ u.
          address_at urls base_url (proxied || r.proxy) u >>= λ address. ok (r, address))
  IsRead-converted proxied (ok r) h =
      IsRead-url (proxied || r.proxy) r (broker_url_of urls base_url r) h
  IsRead-converted proxied (err e) h = tt

  convert-redirect :
      (res : CommandLookupTopicResponse)
      → is_type 0 res.response ≡ false
      → IsDirect (convert_lookup_response urls res)
  unfolding convert_lookup_response
  convert-redirect res h =
      go (parse_optional urls res.broker_service_url)
        (parse_optional urls res.broker_service_url_tls)
    where
      go :
          (p q : Result ServiceDiscoveryError (Option Text))
          → IsDirect (
              p >>= λ broker_url. q >>= λ broker_url_tls. ok record {
                broker_url = broker_url;
                broker_url_tls = broker_url_tls;
                proxy = unwrap_or res.proxy_through_service_url false;
                redirect = is_type 0 res.response;
                authoritative = unwrap_or res.authoritative false;
              })
      go (ok p) (ok q) = h
      go (ok p) (err e) = tt
      go (err e) q = tt

  read_response-final :
      (proxied : Bool) (res : CommandLookupTopicResponse)
      → is_type 0 res.response ≡ false
      → IsRead (read_response urls base_url options proxied res)
  unfolding read_response
  read_response-final proxied res h =
      IsRead-converted proxied (convert_lookup_response urls res) (convert-redirect res h)

  on_read-final :
      (s : State) (t : Turn) (r : Result ServiceDiscoveryError (LookupResponse × BrokerAddress))
      → IsRead r
      → IsDone (on_read urls base_url options s t r)
  unfolding on_read
  on_read-final s t (ok (r, address)) h = on_address-final s r address t.connected h
  on_read-final s t (err e) h = tt

  on_lookup_response-last :
      (s : State) (t : Turn) (res : CommandLookupTopicResponse)
      → IsLast options t
      → is_type 0 res.response ≡ false
      → IsDone (on_lookup_response urls base_url options s t res)
  unfolding on_lookup_response
  on_lookup_response-last s t res l h = elim (Bool-cases (is_failed res.response)) [
    | inl e ↦ rw e (on_failed-late options s t.elapsed (error_of res.error) res.message l.late)
    | inr e ↦ rw e (
        on_read-final s t (read_response urls base_url options s.proxied_query res)
          (read_response-final s.proxied_query res h))
  ]

  before-IsDone :
      (es : List Effect) (x : List Effect × Next)
      → IsDone x
      → IsDone (before urls base_url options es x)
  before-IsDone es (fs, again s) h = h
  before-IsDone es (fs, done r) h = tt

  on_asked-last :
      (s : State) (t : Turn) (es : List Effect) (conn : ℕ)
      (answer : Result ConnectionError CommandLookupTopicResponse)
      → IsLast options t
      → IsFinal answer
      → IsDone (on_asked urls base_url options s t (es, on_second conn answer))
  unfolding on_asked
  on_asked-last s t es conn (ok res) l h =
      before-IsDone es (on_lookup_response urls base_url options (record s { conn = conn }) t res)
        (on_lookup_response-last (record s { conn = conn }) t res l h)
  on_asked-last s t es conn (err e) l h = tt

  on_reconnected-last :
      (s : State) (t : Turn) (c : Result ConnectionError ℕ)
      → IsLast options t
      → IsDone (on_asked urls base_url options s t (on_reconnected s t c))
  unfolding on_reconnected on_asked
  on_reconnected-last s t (ok conn) l =
      on_asked-last s t (on_reconnected s t (ok conn)).0 conn t.answered_again l l.answered_again
  on_reconnected-last s t (err e) l = tt

  pub ask-last :
      (s : State) (t : Turn) (a : Result ConnectionError CommandLookupTopicResponse)
      → IsLast options t
      → IsFinal a
      → IsDone (on_asked urls base_url options s t (ask s t a))
  unfolding ask on_asked
  ask-last s t (ok res) l h =
      on_asked-last s t (asks s.conn s.is_authoritative ∷ []) s.conn (ok res) l h
  ask-last s t (err disconnected) l h = on_reconnected-last s t t.reconnected l
  ask-last s t (err e) l h = tt
