-- ===== src/Retry/Subscribing.antt =====
-- How the subscription of a consumer that is retried ends.
use pulsar_rdg_rs.Prelude.{
  ℕ, suc, ◌<◌, ◌≡◌, List, [], ◌∷◌, ◌++◌, some, Result, ok, err, arith, refl,
}
use pulsar_rdg_rs.Errors.{ConnectionError}
use pulsar_rdg_rs.Retry.{
  OperationRetryOptions, RetryError, flow_failed, Attempt, Effect, asked, flowed, on_answer,
  retry_loop, on_subscribed, with_connection, retry_subscribe_consumer,
}
use pulsar_rdg_rs.Retry.Trying.{
  IsTransient, Allows, Allows-allow_retry, Failure, tries, retry_loop-Failure, retry_loop-tries,
}

module _ {A : Type 0} (options : OperationRetryOptions) (consumer_id batch_size : ℕ)
    (flow : ℕ → Result ConnectionError (Unit {0})) (messages : ℕ) where
  -- What the last attempt meets on the connection `c` after some retries, what is done then behind
  -- its request, and the result.
  pub data Last (a : Attempt A) (c retries : ℕ) : List Effect → Result RetryError ℕ → Type 0 where
    is_subscribed :
        (success : A)
        → a.answer ≡ ok success
        → flow c ≡ ok tt
        → Last a c retries (flowed c consumer_id batch_size ∷ []) (ok messages)
    loses_flow :
        (success : A) (e : ConnectionError)
        → a.answer ≡ ok success
        → flow c ≡ err e
        → Last a c retries (flowed c consumer_id batch_size ∷ []) (err (flow_failed e))
    is_failure :
        {es : List Effect} {e : RetryError}
        → Failure options a retries es e
        → Last a c retries es (err e)

  -- The attempt that ends the loop.
  retry_loop-Last :
      (attempts : ℕ → Attempt A) (c n : ℕ) (es : List Effect) (r : Result RetryError ℕ)
      → Last (attempts n) c n es r
      → retry_loop 1 options (on_subscribed consumer_id batch_size flow messages) attempts c n
        ≡ some (asked c ∷ es, c, r)
  unfolding retry_loop on_answer on_subscribed
  retry_loop-Last attempts c n _ _ (is_subscribed success a f) = rw (a, f) refl
  retry_loop-Last attempts c n _ _ (loses_flow success e a f) = rw (a, f) refl
  retry_loop-Last attempts c n _ _ (is_failure f) =
      retry_loop-Failure options (on_subscribed consumer_id batch_size flow messages) attempts c n _
        _ f

  -- Let the client get a connection, the first `i` attempts to subscribe fail with one of the
  -- twelve errors that pass, the options allow as many retries, and the client reconnect after
  -- each. When the next attempt, on the last of these connections, ends the loop, the subscription
  -- ends within i + 1 rounds: it has made one request on each connection with the delay between
  -- any two, and leaves the client with the last connection. It asks there for as many messages as
  -- the batch size says once the broker has answered, and returns the channel of
  -- messages, or the error with which this fails; or it returns the error of the attempt, which does
  -- not pass or finds all retries that are allowed used up, or, after one more delay, the error of
  -- the lookup or of the new connection.
  pub retry_subscribe_consumer-Last :
      (attempts : ℕ → Attempt A) (connections : ℕ → ℕ) (old i : ℕ) (es : List Effect)
      (r : Result RetryError ℕ)
      → ((j : ℕ) → j < i → IsTransient (attempts j) (connections (suc j)))
      → Allows options.max_retries i
      → Last (attempts i) (connections i) i es r
      → retry_subscribe_consumer
          (suc i)
          options
          consumer_id
          batch_size
          flow
          messages
          attempts
          (ok (connections 0))
          old
        ≡ some (
          tries connections options.retry_delay 0 i ++ asked (connections i) ∷ es,
          connections i,
          r,
        )
  unfolding retry_subscribe_consumer with_connection
  retry_subscribe_consumer-Last attempts connections old i es r t allowed last =
      retry_loop-tries options (on_subscribed consumer_id batch_size flow messages) attempts
        connections i 0 i (connections i) _ r (omega arith) t
        (λ j l. Allows-allow_retry options.max_retries i j allowed l)
        (retry_loop-Last attempts (connections i) i es r last)
