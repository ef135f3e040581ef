-- ===== src/Discovery.antt =====
-- src/service_discovery.rs: ServiceDiscovery::lookup_topic, which asks brokers where a topic is
-- until one answers, and convert_lookup_response. Connections are numbers, a Url is its text, and
-- the url crate is a parameter. What each turn of the loop is answered is given.
pub mod Lookup
pub mod Last
pub mod Ending
pub mod Proxied
pub mod Number
pub mod Retrying
pub mod NotReady
pub mod Tries
use pulsar_rdg_rs.Prelude.{
  ℕ, zero, suc, ◌+◌, Bool, true, false, Option, none, some, List, [], ◌∷◌, ◌++◌, Result, ok, err,
  ◌>>=◌, ◌&&◌, ◌||◌, ltb, if◌then◌else◌,
}
use pulsar_rdg_rs.Prelude.Int.{ℤ, pos}
use pulsar_rdg_rs.Prelude.Equals.{int_eq, text_eq}
use pulsar_rdg_rs.Bytes.{Text}
use pulsar_rdg_rs.Decimal.{shown}
use pulsar_rdg_rs.Errors.{
  ServerError, service_not_ready, metadata_error, server_error, ConnectionError, disconnected,
}
use pulsar_rdg_rs.Manager.{BrokerAddress}
use pulsar_rdg_rs.Producer.Message.{unwrap_or}
use pulsar_rdg_rs.Retry.{allow_retry}

-- The url crate: Url::parse, Url::scheme, Url::host_str and Url::port.
pub record UrlCrate : Type 0 where
  pub parse : Text → Option Text
  pub scheme : Text → Text
  pub host_str : Text → Option Text
  pub port : Text → Option ℕ

pub record CommandLookupTopicResponse : Type 0 where
  pub broker_service_url : Option Text
  pub broker_service_url_tls : Option Text
  pub response : Option ℤ
  pub authoritative : Option Bool
  pub error : Option ℤ
  pub message : Option Text
  pub proxy_through_service_url : Option Bool

pub record LookupResponse : Type 0 where
  pub broker_url : Option Text
  pub broker_url_tls : Option Text
  pub proxy : Bool
  pub redirect : Bool
  pub authoritative : Bool

-- The constructors of ServiceDiscoveryError that the lookup gives, and the panic of an `unwrap`.
pub data ServiceDiscoveryError : Type 0 where
  connection : ConnectionError → ServiceDiscoveryError
  query : Option ServerError → Option Text → ServiceDiscoveryError
  not_found : ServiceDiscoveryError
  panic : ServiceDiscoveryError

abbrev pub is_type : ℕ → Option ℤ → Bool
is_type n none = false
is_type n (some i) = int_eq.beq i (pos n)

module _ (urls : UrlCrate) where
  unfoldable pub parse_optional : Option Text → Result ServiceDiscoveryError (Option Text)
  parse_optional none = ok none
  parse_optional (some u) = elim (urls.parse u) [ none ↦ err not_found | some url ↦ ok (some url) ]

  unfoldable pub convert_lookup_response :
      CommandLookupTopicResponse → Result ServiceDiscoveryError LookupResponse
  unfolding parse_optional
  convert_lookup_response r = parse_optional r.broker_service_url >>= λ broker_url.
      parse_optional r.broker_service_url_tls >>= λ broker_url_tls. ok record {
        broker_url = broker_url;
        broker_url_tls = broker_url_tls;
        proxy = unwrap_or r.proxy_through_service_url false;
        redirect = is_type 0 r.response;
        authoritative = unwrap_or r.authoritative false;
      }

  -- "pulsar+ssl" and "pulsar"
  abbrev pub pulsar_ssl : Text
  pulsar_ssl = 112 ∷ 117 ∷ 108 ∷ 115 ∷ 97 ∷ 114 ∷ 43 ∷ 115 ∷ 115 ∷ 108 ∷ []

  abbrev pub pulsar : Text
  pulsar = 112 ∷ 117 ∷ 108 ∷ 115 ∷ 97 ∷ 114 ∷ []

  -- The broker's url in the scheme of the base url, and the scheme's port.
  unfoldable pub broker_url_of :
      Text → LookupResponse → Result ServiceDiscoveryError (Option Text × ℕ)
  broker_url_of base_url r =
      if text_eq.beq (urls.scheme base_url) pulsar_ssl
      then ok (r.broker_url_tls, 6651)
      else if text_eq.beq (urls.scheme base_url) pulsar
      then ok (r.broker_url, 6650)
      else err not_found

  abbrev pub host_and_port : Text → ℕ → Result ServiceDiscoveryError Text
  host_and_port u broker_port = elim (urls.host_str u) [
    | none ↦ err panic
    | some host ↦ ok (host ++ (58 ∷ shown (unwrap_or (urls.port u) broker_port)))
  ]

  -- The address that an answer names.
  unfoldable pub address_at :
      Text → Bool → Option Text × ℕ → Result ServiceDiscoveryError BrokerAddress
  address_at base_url proxied (none, broker_port) = err not_found
  address_at base_url proxied (some u, broker_port) = host_and_port u broker_port >>= λ broker_url.
      ok record { url = if proxied then base_url else u; broker_url = broker_url; proxy = proxied }
