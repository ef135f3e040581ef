-- ===== src/Tests/Numbers.antt =====
-- Lookups of the number of partitions at which the theorems about them are applied.
use pulsar_rdg_rs.Prelude.{
  ℕ, inr, ◌≡◌, refl, true, false, none, some, [], ◌∷◌, ok, err, ltb, if◌then◌else◌,
}
use pulsar_rdg_rs.Prelude.Int.{pos}
use pulsar_rdg_rs.Decimal.{rsplit_once}
use pulsar_rdg_rs.Errors.{disconnected}
use pulsar_rdg_rs.Partitions.{is_topic_partition_name}
use pulsar_rdg_rs.Discovery.Number.{
  CommandPartitionedTopicMetadataResponse, Options, Sender, NumberTurn, lookup_number,
}
use pulsar_rdg_rs.Discovery.NotReady.{NotReady, lookup_number-NotReady}

abbrev not_ready : CommandPartitionedTopicMetadataResponse
not_ready = record {
  partitions = none;
  response = some (pos 1);
  error = some (pos 6);
  message = none;
}

abbrev four : CommandPartitionedTopicMetadataResponse
four = record { partitions = some 4; response = some (pos 0); error = none; message = none }

abbrev always : NumberTurn
always = record { answer = ok not_ready; reconnected = err disconnected; answered_again = ok four }

abbrev found : NumberTurn
found = record { answer = ok four; reconnected = err disconnected; answered_again = ok four }

abbrev patient : Options
patient = record {
  retry_delay = 500;
  max_retries = none;
  metadata_auto_creation_enabled = true;
  refusal = [];
}

abbrev broker_of : Sender
broker_of = record { conn = 7; supports_without_auto_creation = false }

always-NotReady : (n : ℕ) → NotReady always
always-NotReady n = record {
  response = not_ready;
  answered = refl;
  refused = inr refl;
  reason = refl;
}

lookup_number-NotReady_example :
    lookup_number 1000 patient (λ n. always) (ok broker_of) (97 ∷ []) ≡ none
unfolding is_topic_partition_name rsplit_once
lookup_number-NotReady_example =
    lookup_number-NotReady 1000 patient (λ n. always) broker_of (97 ∷ []) refl refl refl
      always-NotReady

abbrev soon : ℕ → NumberTurn
soon n = if ltb n 2 then always else found

-- Two retries are all that are allowed.
abbrev limited : Options
limited = record patient { max_retries = some 2 }
