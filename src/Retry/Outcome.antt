-- ===== src/Retry/Outcome.antt =====
-- How the creation of a producer that is retried ends.
use pulsar_rdg_rs.Prelude.{
  ℕ, ◌≡◌, true, false, Option, none, some, List, [], ◌∷◌, Result, ok, err, ◌⊎◌,
}
use pulsar_rdg_rs.Bytes.{Bytes, Text}
use pulsar_rdg_rs.Errors.{ConnectionError}
use pulsar_rdg_rs.Retry.{
  OperationRetryOptions, RetryError, operation_failed, Attempt, Effect, awaited,
  CommandProducerSuccess,
}
use pulsar_rdg_rs.Retry.Trying.{Failure}

-- What the last attempt meets on the connection `c` after some retries, what is done then behind
-- its request, and the result.
pub data Last (options : OperationRetryOptions)
    (wait : ℕ → Result ConnectionError CommandProducerSuccess) (a : Attempt CommandProducerSuccess)
    (c retries : ℕ) : List Effect → Result RetryError (Text × Option Bytes) → Type 0 where
  is_ready :
      (p : CommandProducerSuccess)
      → a.answer ≡ ok p
      → (p.producer_ready ≡ none) ⊎ (p.producer_ready ≡ some true)
      → Last options wait a c retries [] (ok (p.producer_name, p.schema_version))
  gets_access :
      (p q : CommandProducerSuccess)
      → a.answer ≡ ok p
      → p.producer_ready ≡ some false
      → wait c ≡ ok q
      → (version : Option Bytes)
      → ((v : Bytes) × (q.schema_version ≡ some v) × (version ≡ some v))
        ⊎ ((q.schema_version ≡ none) × (version ≡ p.schema_version))
      → Last options wait a c retries (awaited c p.request_id ∷ []) (ok (p.producer_name, version))
  loses_access :
      (p : CommandProducerSuccess) (e : ConnectionError)
      → a.answer ≡ ok p
      → p.producer_ready ≡ some false
      → wait c ≡ err e
      → Last options wait a c retries (awaited c p.request_id ∷ []) (err (operation_failed e))
  is_failure :
      {es : List Effect} {e : RetryError}
      → Failure options a retries es e
      → Last options wait a c retries es (err e)
