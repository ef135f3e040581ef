-- ===== src/Tests/Retries.antt =====
-- src/retry_op.rs: operations that are retried.
use pulsar_rdg_rs.Prelude.{
  ℕ, zero, suc, ◌≡◌, ◌<◌, refl, false, none, some, [], ◌∷◌, ok, err, arith, Result, true,
}
use pulsar_rdg_rs.Errors.{
  ConnectionError, io, broken_pipe, disconnected, pulsar_error, service_not_ready,
}
use pulsar_rdg_rs.Retry.{
  OperationRetryOptions, Attempt, asked, delayed, CommandProducerSuccess, retry_subscribe_consumer,
  flowed, flow_failed,
}
use pulsar_rdg_rs.Retry.Subscribing.{loses_flow, retry_subscribe_consumer-Last}
use pulsar_rdg_rs.Retry.Trying.{IsTransient, is_not_ready, is_broken_pipe}

abbrev options : OperationRetryOptions
options = record { retry_delay = 5000; max_retries = some 2 }

abbrev queued : CommandProducerSuccess
queued = record {
  request_id = 9;
  producer_name = 65 ∷ [];
  schema_version = some (1 ∷ []);
  producer_ready = some false;
}

-- The first two attempts fail, which is as often as is allowed, and the third has to wait.
abbrev attempts : ℕ → Attempt CommandProducerSuccess
attempts zero = record { answer = err (io broken_pipe); looked_up = ok 1; connected = ok 21 }
attempts (suc zero) = record {
  answer = err (pulsar_error (some service_not_ready) none);
  looked_up = ok 1;
  connected = ok 22;
}
attempts (suc (suc n)) = record { answer = ok queued; looked_up = ok 1; connected = ok 23 }

abbrev connections : ℕ → ℕ
connections zero = 20
connections (suc zero) = 21
connections (suc (suc n)) = 22

abbrev wait : ℕ → Result ConnectionError CommandProducerSuccess
wait c = ok (record queued { schema_version = none; producer_ready = some true })

-- Two attempts to subscribe fail, the third succeeds, but the permits are refused.
abbrev subscriptions : ℕ → Attempt ℕ
subscriptions zero = record { answer = err (io broken_pipe); looked_up = ok 1; connected = ok 21 }
subscriptions (suc zero) = record {
  answer = err (pulsar_error (some service_not_ready) none);
  looked_up = ok 1;
  connected = ok 22;
}
subscriptions (suc (suc n)) = record { answer = ok 9; looked_up = ok 1; connected = ok 23 }

subscriptions_fail : (j : ℕ) → j < 2 → IsTransient (subscriptions j) (connections (suc j))
subscriptions_fail zero l = record {
  fails = record { error = io broken_pipe; failed = refl; temporary = is_broken_pipe };
  address = 1;
  found = refl;
  reconnected = refl;
}
subscriptions_fail (suc zero) l = record {
  fails = record {
    error = pulsar_error (some service_not_ready) none;
    failed = refl;
    temporary = is_not_ready none;
  };
  address = 1;
  found = refl;
  reconnected = refl;
}
subscriptions_fail (suc (suc n)) l = absurd (omega arith)

retry_subscribe_consumer-Last_example :
    retry_subscribe_consumer 3 options 3 1000 (λ c. err disconnected) 50 subscriptions (ok 20) 19
    ≡ some (
      asked 20 ∷ delayed 5000 ∷ asked 21 ∷ delayed 5000 ∷ asked 22 ∷ flowed 22 3 1000 ∷ [],
      22,
      err (flow_failed disconnected),
    )
retry_subscribe_consumer-Last_example =
    retry_subscribe_consumer-Last options 3 1000 (λ c. err disconnected) 50 subscriptions
      connections 19 2 (flowed 22 3 1000 ∷ []) (err (flow_failed disconnected)) subscriptions_fail
      (omega arith) (loses_flow 9 disconnected refl refl)
