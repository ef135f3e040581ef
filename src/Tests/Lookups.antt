-- ===== src/Tests/Lookups.antt =====
-- src/service_discovery.rs: the lookup of a topic.
use pulsar_rdg_rs.Prelude.{
  ℕ, zero, suc, ◌≤◌, refl, true, false, none, some, [], ◌∷◌, ok, err, arith,
}
use pulsar_rdg_rs.Prelude.Int.{pos}
use pulsar_rdg_rs.Bytes.{Text}
use pulsar_rdg_rs.Errors.{disconnected}
use pulsar_rdg_rs.Manager.{BrokerAddress}
use pulsar_rdg_rs.Discovery.{UrlCrate, CommandLookupTopicResponse}
use pulsar_rdg_rs.Discovery.Lookup.{LookupOptions, State, Turn, lookup_loop, lookup_topic}
use pulsar_rdg_rs.Discovery.Last.{IsLast}
use pulsar_rdg_rs.Discovery.Ending.{Ends, lookup_topic-Ends}
use pulsar_rdg_rs.Discovery.Proxied.{RunIsVia, lookup_loop-via}

-- Every text is a url, with itself as its host.
abbrev urls : UrlCrate
urls = record {
  parse = λ u. some u;
  scheme = λ u. 112 ∷ 117 ∷ 108 ∷ 115 ∷ 97 ∷ 114 ∷ [];
  host_str = λ u. some u;
  port = λ u. none;
}

abbrev base_url : Text
base_url = 98 ∷ []

abbrev options : LookupOptions
options = record { operation_timeout = 30; retry_delay = 5; max_retries = none }

abbrev base : BrokerAddress
base = record { url = base_url; broker_url = 98 ∷ 58 ∷ []; proxy = false }

abbrev proxied : BrokerAddress
proxied = record { url = base_url; broker_url = 99 ∷ 58 ∷ []; proxy = true }

-- An answer of this LookupType, with the error ServiceNotReady.
abbrev response : ℕ → CommandLookupTopicResponse
response type = record {
  broker_service_url = some (99 ∷ []);
  broker_service_url_tls = none;
  response = some (pos type);
  authoritative = some true;
  error = some (pos 6);
  message = none;
  proxy_through_service_url = none;
}

-- First the service is not ready, then the client is redirected, and then it is told the broker.
abbrev turns : ℕ → Turn
turns zero = record {
  answer = ok (response 2);
  reconnected = ok 2;
  answered_again = ok (response 2);
  elapsed = 1;
  connected = ok 3;
}
turns (suc zero) = record {
  answer = err disconnected;
  reconnected = ok 2;
  answered_again = ok (response 0);
  elapsed = 29;
  connected = ok 3;
}
turns (suc (suc n)) = record {
  answer = ok (response 1);
  reconnected = ok 2;
  answered_again = ok (response 1);
  elapsed = 31;
  connected = ok 4;
}

last : (i : ℕ) → 2 ≤ i → IsLast options (turns i)
last zero h = absurd (omega arith)
last (suc zero) h = absurd (omega arith)
last (suc (suc n)) h = record { late = omega arith; answered = refl; answered_again = refl }

lookup_topic-Ends_example :
    Ends urls base_url options (lookup_topic urls base_url options 3 turns base (ok 1))
lookup_topic-Ends_example = lookup_topic-Ends urls base_url options turns base (ok 1) 2 last

abbrev via : State
via = record {
  conn = 1;
  proxied_query = true;
  is_authoritative = false;
  broker_address = proxied;
  current_retries = 0;
}

lookup_loop-via_example :
    RunIsVia urls base_url options (lookup_loop urls base_url options 3 turns 0 via)
lookup_loop-via_example = lookup_loop-via urls base_url options turns 3 0 via refl (refl, refl)
