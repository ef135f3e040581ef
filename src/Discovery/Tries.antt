-- ===== src/Discovery/Tries.antt =====
-- Lookups of the number of partitions that are tried again until the broker is ready.
use pulsar_rdg_rs.Prelude.{
  ◌≤◌, Option, err, ℕ, zero, suc, ◌≡◌, none, some, List, [], ◌∷◌, Result, ok,
}
use pulsar_rdg_rs.Prelude.Int.{pos}
use pulsar_rdg_rs.Errors.{ServerError, service_not_ready, number}
use pulsar_rdg_rs.Discovery.{ServiceDiscoveryError, query}
use pulsar_rdg_rs.Discovery.Number.{
  CommandPartitionedTopicMetadataResponse, Options, NumberEffect, asks, delays,
}
use pulsar_rdg_rs.Discovery.NotReady.{NotReady, IsRefused}

-- What goes out in the turns that are answered so.
abbrev pub tries : ℕ → ℕ → ℕ → List NumberEffect
tries conn delay zero = []
tries conn delay (suc n) = asks conn ∷ delays delay ∷ tries conn delay n

-- As many retries are allowed.
abbrev pub Allows : Option ℕ → ℕ → Type 0
Allows none retries = Unit
Allows (some limit) retries = retries ≤ limit

-- The answer to the request after `retries` retries, and how the lookup ends with it.
pub data Last (o : Options) (retries : ℕ) (res : CommandPartitionedTopicMetadataResponse)
    : Result ServiceDiscoveryError ℕ → Type 0 where
  is_found :
      (partitions : ℕ)
      → res.response ≡ some (pos 0)
      → res.partitions ≡ some partitions
      → Last o retries res (ok partitions)
  is_missing :
      res.response ≡ some (pos 0)
      → res.partitions ≡ none
      → res.error ≡ none
      → Last o retries res (err (query none res.message))
  is_unnamed : IsRefused res → res.error ≡ none → Last o retries res (err (query none res.message))
  is_other :
      (e : ServerError)
      → IsRefused res
      → res.error ≡ some (pos (number e))
      → ¬ (e ≡ service_not_ready)
      → Last o retries res (err (query (some e) res.message))
  is_exhausted :
      IsRefused res
      → res.error ≡ some (pos 6)
      → o.max_retries ≡ some retries
      → Last o retries res (err (query (some service_not_ready) res.message))
