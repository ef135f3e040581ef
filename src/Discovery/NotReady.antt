-- ===== src/Discovery/NotReady.antt =====
-- Brokers that are not ready yet when they are asked for the number of partitions.
use pulsar_rdg_rs.Prelude.{
  ◌⊎◌, inl, inr, ℕ, zero, suc, ◌+◌, ◌≡◌, refl, ap, ◌∙◌, Bool, true, false, none, some, List, [],
  ◌∷◌, Result, ok, ◌||◌, arith,
}
use pulsar_rdg_rs.Prelude.Int.{pos}
use pulsar_rdg_rs.Bytes.{Text}
use pulsar_rdg_rs.Errors.{ConnectionError, server_error}
use pulsar_rdg_rs.Discovery.Lookup.{within_retry_budget}
use pulsar_rdg_rs.Partitions.{is_topic_partition_name}
use pulsar_rdg_rs.Discovery.Number.{
  CommandPartitionedTopicMetadataResponse, Options, Sender, NumberTurn, NumberEffect, asks,
  gets_base, delays, request_metadata, on_request, is_refused, NumberNext, again, on_metadata,
  on_number_asked, number_turn, after_effects, on_next, number_loop, with_base, lookup_number,
}

-- There is no response, or it is `Failed`.
abbrev pub IsRefused : CommandPartitionedTopicMetadataResponse → Type 0
IsRefused res = (res.response ≡ none) ⊎ (res.response ≡ some (pos 1))

-- The broker answers that it is not ready: the error is `ServiceNotReady`, which is number 6.
pub record NotReady (t : NumberTurn) : Type 0 where
  pub response : CommandPartitionedTopicMetadataResponse
  pub answered : t.answer ≡ ok response
  pub refused : IsRefused response
  pub reason : response.error ≡ some (pos 6)

-- The request goes out: the topic may be created, or the broker can look it up without creating it.
abbrev pub may_ask : Options → Sender → Bool
may_ask o s = o.metadata_auto_creation_enabled || s.supports_without_auto_creation

request_metadata-asks :
    (o : Options) (s : Sender) (a : Result ConnectionError CommandPartitionedTopicMetadataResponse)
    → may_ask o s ≡ true
    → request_metadata o s a ≡ (asks s.conn ∷ [], a)
unfolding request_metadata
request_metadata-asks o s a h = ground arith

pub number_turn-answered :
    (o : Options) (k : ℕ) (s : Sender) (t : NumberTurn)
    (res : CommandPartitionedTopicMetadataResponse)
    → may_ask o s ≡ true
    → t.answer ≡ ok res
    → number_turn o k s t ≡ (asks s.conn ∷ (on_metadata o k s res).0, (on_metadata o k s res).1)
unfolding number_turn on_request
number_turn-answered o k s t res h e =
    ap (λ a. on_number_asked o k (on_request o s t a)) (request_metadata-asks o s t.answer h)
    ∙ ap
        (λ (a : Result ConnectionError CommandPartitionedTopicMetadataResponse).
          on_number_asked o k (on_request o s t (asks s.conn ∷ [], a)))
        e

pub IsRefused-is_refused :
    (res : CommandPartitionedTopicMetadataResponse) → IsRefused res → is_refused res.response ≡ true
IsRefused-is_refused res (inl e) = rw e refl
IsRefused-is_refused res (inr e) = rw e refl

on_metadata-NotReady :
    (o : Options) (k : ℕ) (s : Sender) (res : CommandPartitionedTopicMetadataResponse)
    → IsRefused res
    → res.error ≡ some (pos 6)
    → within_retry_budget o.max_retries k ≡ true
    → on_metadata o k s res ≡ (delays o.retry_delay ∷ [], again s)
unfolding on_metadata server_error
on_metadata-NotReady o k s res r e b = rw (IsRefused-is_refused res r) rw e rw b refl

pub number_turn-NotReady :
    (o : Options) (k : ℕ) (s : Sender) (t : NumberTurn)
    → may_ask o s ≡ true
    → NotReady t
    → within_retry_budget o.max_retries k ≡ true
    → number_turn o k s t ≡ (asks s.conn ∷ delays o.retry_delay ∷ [], again s)
number_turn-NotReady o k s t h n b =
    number_turn-answered o k s t n.response h n.answered
    ∙ ap (λ (r : List NumberEffect × NumberNext). (asks s.conn ∷ r.0, r.1))
        (on_metadata-NotReady o k s n.response n.refused n.reason b)

number_loop-NotReady :
    (fuel k : ℕ) (o : Options) (turns : ℕ → NumberTurn) (s : Sender)
    → o.max_retries ≡ none
    → may_ask o s ≡ true
    → ((n : ℕ) → NotReady (turns n))
    → number_loop fuel o turns k s ≡ none
unfolding number_loop
number_loop-NotReady zero k o turns s e h n = refl
number_loop-NotReady (suc fuel) k o turns s e h n =
    ap (on_next (number_loop fuel o turns (k + 1)))
      (number_turn-NotReady o k s (turns k) h (n k) (ap (λ b. within_retry_budget b k) e))
    ∙ ap (after_effects (asks s.conn ∷ delays o.retry_delay ∷ []))
        (number_loop-NotReady fuel (k + 1) o turns s e h n)

-- Without a limit of retries, which is the default, and with a broker that can be asked and that
-- always answers that it is not ready, the lookup of the number of partitions of a topic without a
-- partition's name ends in no number of turns, whatever the operation's timeout is.
pub lookup_number-NotReady :
    (fuel : ℕ) (o : Options) (turns : ℕ → NumberTurn) (s : Sender) (topic : Text)
    → o.max_retries ≡ none
    → may_ask o s ≡ true
    → is_topic_partition_name topic ≡ false
    → ((n : ℕ) → NotReady (turns n))
    → lookup_number fuel o turns (ok s) topic ≡ none
unfolding lookup_number with_base
lookup_number-NotReady fuel o turns s topic e h p n =
    rw p ground
      (arith, ap (after_effects (gets_base ∷ [])) (number_loop-NotReady fuel 0 o turns s e h n))
