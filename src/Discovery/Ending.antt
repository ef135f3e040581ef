-- ===== src/Discovery/Ending.antt =====
-- The lookup of a topic ends.
use pulsar_rdg_rs.Prelude.{
  ℕ, zero, suc, ◌+◌, ◌≤◌, none, some, List, [], ◌∷◌, Result, ok, err, arith,
}
use pulsar_rdg_rs.Bytes.{Text}
use pulsar_rdg_rs.Errors.{ConnectionError}
use pulsar_rdg_rs.Manager.{BrokerAddress}
use pulsar_rdg_rs.Discovery.{UrlCrate}
use pulsar_rdg_rs.Discovery.Lookup.{
  LookupOptions, State, Turn, Effect, gets, Next, again, done, turn_of, Run, prepend, on_next,
  lookup_loop, lookup_topic,
}
use pulsar_rdg_rs.Discovery.Last.{IsDone, IsLast, ask-last}

module _ (urls : UrlCrate) (base_url : Text) (options : LookupOptions) where
  abbrev pub Ends : Run urls base_url options → Type 0
  Ends none = ⊥
  Ends (some run) = Unit

  on_next-last :
      (x : List Effect × Next) (rest : State → Run urls base_url options)
      → IsDone x
      → Ends (on_next urls base_url options x rest)
  unfolding on_next
  on_next-last (es, again s) rest h = absurd h
  on_next-last (es, done r) rest h = tt

  prepend-Ends :
      (es : List Effect) (r : Run urls base_url options)
      → Ends r
      → Ends (prepend urls base_url options es r)
  prepend-Ends es none h = absurd h
  prepend-Ends es (some (fs, r)) h = tt

  on_next-Ends :
      (x : List Effect × Next) (rest : State → Run urls base_url options)
      → ((s : State) → Ends (rest s))
      → Ends (on_next urls base_url options x rest)
  unfolding on_next
  on_next-Ends (es, again s) rest h = prepend-Ends es (rest s) (h s)
  on_next-Ends (es, done r) rest h = tt

  lookup_loop-Ends :
      (turns : ℕ → Turn) (k n : ℕ) (s : State)
      → ((i : ℕ) → n + k ≤ i → IsLast options (turns i))
      → Ends (lookup_loop urls base_url options (suc k) turns n s)
  unfolding lookup_loop turn_of
  lookup_loop-Ends turns zero n s h =
      let l = h n (omega arith) in
      on_next-last (turn_of urls base_url options s (turns n)) _
        (ask-last urls base_url options s (turns n) (turns n).answer l l.answered)
  lookup_loop-Ends turns (suc k) n s h =
      on_next-Ends (turn_of urls base_url options s (turns n)) _
        (λ s. lookup_loop-Ends turns k (suc n) s (λ i l. h i (omega arith)))

  -- When every turn from turn `k` on comes after the operation's deadline and is answered with no
  -- redirect, the lookup of a topic ends within `k + 1` turns, whatever the brokers answer, and
  -- even when the number of retries is not limited.
  pub lookup_topic-Ends :
      (turns : ℕ → Turn) (base : BrokerAddress) (connected : Result ConnectionError ℕ) (k : ℕ)
      → ((i : ℕ) → k ≤ i → IsLast options (turns i))
      → Ends (lookup_topic urls base_url options (suc k) turns base connected)
  unfolding lookup_topic
  lookup_topic-Ends turns base (ok conn) k h =
      prepend-Ends (gets base ∷ []) _ (lookup_loop-Ends turns k 0 _ (λ i l. h i (omega arith)))
  lookup_topic-Ends turns base (err e) k h = tt
