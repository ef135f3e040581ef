-- ===== src/Discovery/Proxied.antt =====
-- Once a lookup goes through a proxy, it stays with it.
use pulsar_rdg_rs.Prelude.{
  ℕ, zero, suc, ◌+◌, ◌≡◌, refl, Bool, true, false, Option, none, some, List, [], ◌∷◌, ◌++◌, Result,
  ok, err, ◌>>=◌, ◌&&◌, ltb, if◌then◌else◌, Bool-cases, inl, inr,
}
use pulsar_rdg_rs.Bytes.{Text}
use pulsar_rdg_rs.Errors.{ServerError, ConnectionError, disconnected}
use pulsar_rdg_rs.Manager.{BrokerAddress}
use pulsar_rdg_rs.Discovery.{
  UrlCrate, CommandLookupTopicResponse, LookupResponse, ServiceDiscoveryError, query, address_at,
  broker_url_of, convert_lookup_response, host_and_port,
}
use pulsar_rdg_rs.Discovery.Lookup.{
  LookupOptions, State, Turn, Effect, asks, gets, delays, Next, again, done, on_reconnected, ask,
  error_of, is_failed, is_transient, within_retry_budget, on_failed, on_address, read_response,
  on_read, on_lookup_response, before, on_asked, turn_of, Run, prepend, on_next, lookup_loop,
}

module _ (urls : UrlCrate) (base_url : Text) (options : LookupOptions) where
  -- The address is reached through the proxy at the base url.
  abbrev pub IsVia : BrokerAddress → Type 0
  IsVia address = (address.proxy ≡ true) × (address.url ≡ base_url)

  abbrev pub ResultIsVia : Result ServiceDiscoveryError BrokerAddress → Type 0
  ResultIsVia (ok address) = IsVia address
  ResultIsVia (err e) = Unit

  -- All addresses that the loop connects to are.
  abbrev pub AllVia : List Effect → Type 0
  AllVia [] = Unit
  AllVia (gets address ∷ es) = IsVia address × AllVia es
  AllVia (asks conn authoritative ∷ es) = AllVia es
  AllVia (delays t ∷ es) = AllVia es

  abbrev pub IsProxied : State → Type 0
  IsProxied s = (s.proxied_query ≡ true) × IsVia s.broker_address

  abbrev pub NextIsVia : List Effect × Next → Type 0
  NextIsVia (es, again s) = AllVia es × IsProxied s
  NextIsVia (es, done r) = AllVia es × ResultIsVia r

  abbrev pub ReadIsVia : Result ServiceDiscoveryError (LookupResponse × BrokerAddress) → Type 0
  ReadIsVia (ok (r, address)) = IsVia address
  ReadIsVia (err e) = Unit

  -- What the loop has done when it ends; nothing is said of a loop that is cut off.
  abbrev pub RunIsVia : Run urls base_url options → Type 0
  RunIsVia none = Unit
  RunIsVia (some (es, r)) = AllVia es × ResultIsVia r

  AllVia-append : (es fs : List Effect) → AllVia es → AllVia fs → AllVia (es ++ fs)
  AllVia-append [] fs h k = k
  AllVia-append (gets address ∷ es) fs (v, h) k = (v, AllVia-append es fs h k)
  AllVia-append (asks conn authoritative ∷ es) fs h k = AllVia-append es fs h k
  AllVia-append (delays t ∷ es) fs h k = AllVia-append es fs h k

  host-via :
      (r : LookupResponse) (u : Text) (x : Result ServiceDiscoveryError Text)
      → ReadIsVia (
          (x >>= λ broker_url.
          ok record { url = if true then base_url else u; broker_url = broker_url; proxy = true })
          >>= λ address. ok (r, address))
  host-via r u (ok broker_url) = (refl, refl)
  host-via r u (err e) = tt

  url-via :
      (r : LookupResponse) (x : Result ServiceDiscoveryError (Option Text × ℕ))
      → ReadIsVia (x >>= λ u. address_at urls base_url true u >>= λ address. ok (r, address))
  unfolding address_at
  url-via r (ok (none, broker_port)) = tt
  url-via r (ok (some u, broker_port)) = host-via r u (host_and_port urls u broker_port)
  url-via r (err e) = tt

  converted-via :
      (x : Result ServiceDiscoveryError LookupResponse)
      → ReadIsVia (
          x >>= λ r. broker_url_of urls base_url r >>= λ u.
          address_at urls base_url true u >>= λ address. ok (r, address))
  converted-via (ok r) = url-via r (broker_url_of urls base_url r)
  converted-via (err e) = tt

  read_response-via :
      (proxied : Bool) (res : CommandLookupTopicResponse)
      → proxied ≡ true
      → ReadIsVia (read_response urls base_url options proxied res)
  unfolding read_response
  read_response-via true res h = converted-via (convert_lookup_response urls res)
  read_response-via false res h = cc

  on_read-via :
      (s : State) (t : Turn) (x : Result ServiceDiscoveryError (LookupResponse × BrokerAddress))
      → ReadIsVia x
      → NextIsVia (on_read urls base_url options s t x)
  unfolding on_read
  on_read-via s t (ok (r, address)) h = go r address t.connected h
    where
      go :
          (r : LookupResponse) (address : BrokerAddress) (c : Result ConnectionError ℕ)
          → IsVia address
          → NextIsVia (on_address s r address c)
      go r address (err e) h = ((h, tt), tt)
      go r address (ok conn) h = elim (Bool-cases r.redirect) [
        | inl e ↦ rw e ((h, tt), (h.0, h))
        | inr e ↦ rw e ((h, tt), h)
      ]
  on_read-via s t (err e) h = (tt, tt)

  on_failed-via :
      (s : State) (elapsed : ℕ) (error : Option ServerError) (message : Option Text)
      → IsProxied s
      → NextIsVia (on_failed options s elapsed error message)
  unfolding on_failed
  on_failed-via s elapsed error message h = go (
      is_transient error
      && (within_retry_budget options.max_retries s.current_retries
          && ltb elapsed options.operation_timeout))
    where
      go :
          (b : Bool)
          → NextIsVia (
              if b
              then (
                delays options.retry_delay ∷ [],
                again (record s { current_retries = s.current_retries + 1 }),
              )
              else ([], done (err (query error message))))
      go true = (tt, h)
      go false = (tt, tt)

  on_lookup_response-via :
      (s : State) (t : Turn) (res : CommandLookupTopicResponse)
      → IsProxied s
      → NextIsVia (on_lookup_response urls base_url options s t res)
  unfolding on_lookup_response
  on_lookup_response-via s t res h = elim (Bool-cases (is_failed res.response)) [
    | inl e ↦ rw e (on_failed-via s t.elapsed (error_of res.error) res.message h)
    | inr e ↦ rw e (
        on_read-via s t (read_response urls base_url options s.proxied_query res)
          (read_response-via s.proxied_query res h.0))
  ]

  before-via :
      (es : List Effect) (x : List Effect × Next)
      → AllVia es
      → NextIsVia x
      → NextIsVia (before urls base_url options es x)
  before-via es (fs, again s) h (k, p) = (AllVia-append es fs h k, p)
  before-via es (fs, done r) h (k, p) = (AllVia-append es fs h k, p)

  on_asked-via :
      (s : State) (t : Turn)
      (x : List Effect × Result ServiceDiscoveryError (ℕ × CommandLookupTopicResponse))
      → AllVia x.0
      → IsProxied s
      → NextIsVia (on_asked urls base_url options s t x)
  unfolding on_asked
  on_asked-via s t (es, ok (conn, res)) h p =
      before-via es (on_lookup_response urls base_url options (record s { conn = conn }) t res) h
        (on_lookup_response-via (record s { conn = conn }) t res p)
  on_asked-via s t (es, err e) h p = (h, tt)

  on_reconnected-via :
      (s : State) (t : Turn) (c : Result ConnectionError ℕ)
      → IsProxied s
      → AllVia (on_reconnected s t c).0
  unfolding on_reconnected
  on_reconnected-via s t (ok conn) p = (p.1, tt)
  on_reconnected-via s t (err e) p = (p.1, tt)

  ask-via :
      (s : State) (t : Turn) (a : Result ConnectionError CommandLookupTopicResponse)
      → IsProxied s
      → AllVia (ask s t a).0
  unfolding ask
  ask-via s t (ok res) p = tt
  ask-via s t (err disconnected) p = on_reconnected-via s t t.reconnected p
  ask-via s t (err e) p = tt

  prepend-via :
      (es : List Effect) (r : Run urls base_url options)
      → AllVia es
      → RunIsVia r
      → RunIsVia (prepend urls base_url options es r)
  prepend-via es none h k = tt
  prepend-via es (some (fs, r)) h (k, v) = (AllVia-append es fs h k, v)

  on_next-via :
      (x : List Effect × Next) (rest : State → Run urls base_url options)
      → NextIsVia x
      → ((s : State) → IsProxied s → RunIsVia (rest s))
      → RunIsVia (on_next urls base_url options x rest)
  unfolding on_next
  on_next-via (es, again s) rest (h, p) k = prepend-via es (rest s) h (k s p)
  on_next-via (es, done r) rest (h, v) k = (h, v)

  -- From a turn on at which the lookup goes through a proxy, with an address there at the base url:
  -- every address that the loop then connects to, reconnects to and returns goes through the proxy
  -- at the base url, whatever the brokers answer, also when their answers do not ask for the proxy.
  pub lookup_loop-via :
      (turns : ℕ → Turn) (fuel i : ℕ) (s : State)
      → s.proxied_query ≡ true
      → IsVia s.broker_address
      → RunIsVia (lookup_loop urls base_url options fuel turns i s)
  unfolding lookup_loop turn_of
  lookup_loop-via turns zero i s p v = tt
  lookup_loop-via turns (suc fuel) i s p v =
      let t = turns i in
      on_next-via (turn_of urls base_url options s t)
        (λ s. lookup_loop urls base_url options fuel turns (suc i) s)
        (on_asked-via s t (ask s t t.answer) (ask-via s t t.answer (p, v)) (p, v))
        (λ s (q, w). lookup_loop-via turns fuel (suc i) s q w)
