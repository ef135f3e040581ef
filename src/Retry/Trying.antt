-- ===== src/Retry/Trying.antt =====
-- Attempts that fail for a while, and attempts that end the loop with an error.
use pulsar_rdg_rs.Prelude.{
  ℕ, zero, suc, ◌+◌, ◌<◌, ◌≤◌, ◌≡◌, ap, ◌∙◌, refl, true, false, Option, none, some, List, [], ◌∷◌,
  ◌++◌, Result, ok, err, ◌>>=◌, arith, subst, lt→ltb, Bool-cases, ◌⊎◌, inl, inr, ltb,
}
use pulsar_rdg_rs.Bytes.{Text}
use pulsar_rdg_rs.Errors.{
  service_not_ready, consumer_busy, producer_busy, producer_blocked_quota_exceeded_error,
  producer_blocked_quota_exceeded_exception, connection_reset, connection_aborted, not_connected,
  broken_pipe, timed_out, interrupted, unexpected_eof, ConnectionError, pulsar_error, io,
}
use pulsar_rdg_rs.Retry.{
  OperationRetryOptions, allow_retry, retryable, is_server_retryable, is_io_retryable, RetryError,
  operation_failed, Attempt, Effect, asked, delayed, handle_retry_error, Run, prepend, Finish,
  on_retry, on_answer, retry_loop,
}

-- The errors that pass: five of the broker's and seven of the stream's.
pub data IsTemporary : ConnectionError → Type 0 where
  is_not_ready : (t : Option Text) → IsTemporary (pulsar_error (some service_not_ready) t)
  is_consumer_busy : (t : Option Text) → IsTemporary (pulsar_error (some consumer_busy) t)
  is_producer_busy : (t : Option Text) → IsTemporary (pulsar_error (some producer_busy) t)
  is_blocked :
      (t : Option Text) → IsTemporary (pulsar_error (some producer_blocked_quota_exceeded_error) t)
  is_blocked_by_exception :
      (t : Option Text)
      → IsTemporary (pulsar_error (some producer_blocked_quota_exceeded_exception) t)
  is_reset : IsTemporary (io connection_reset)
  is_aborted : IsTemporary (io connection_aborted)
  is_not_connected : IsTemporary (io not_connected)
  is_broken_pipe : IsTemporary (io broken_pipe)
  is_timed_out : IsTemporary (io timed_out)
  is_interrupted : IsTemporary (io interrupted)
  is_unexpected_eof : IsTemporary (io unexpected_eof)

IsTemporary-retryable : (e : ConnectionError) → IsTemporary e → retryable e ≡ true
unfolding retryable is_server_retryable is_io_retryable
IsTemporary-retryable _ (is_not_ready t) = refl
IsTemporary-retryable _ (is_consumer_busy t) = refl
IsTemporary-retryable _ (is_producer_busy t) = refl
IsTemporary-retryable _ (is_blocked t) = refl
IsTemporary-retryable _ (is_blocked_by_exception t) = refl
IsTemporary-retryable _ is_reset = refl
IsTemporary-retryable _ is_aborted = refl
IsTemporary-retryable _ is_not_connected = refl
IsTemporary-retryable _ is_broken_pipe = refl
IsTemporary-retryable _ is_timed_out = refl
IsTemporary-retryable _ is_interrupted = refl
IsTemporary-retryable _ is_unexpected_eof = refl

retryable-IsTemporary : (e : ConnectionError) → retryable e ≡ true → IsTemporary e
unfolding retryable is_server_retryable is_io_retryable
retryable-IsTemporary (pulsar_error (some service_not_ready) t) h = is_not_ready t
retryable-IsTemporary (pulsar_error (some consumer_busy) t) h = is_consumer_busy t
retryable-IsTemporary (pulsar_error (some producer_busy) t) h = is_producer_busy t
retryable-IsTemporary (pulsar_error (some producer_blocked_quota_exceeded_error) t) h = is_blocked t
retryable-IsTemporary (pulsar_error (some producer_blocked_quota_exceeded_exception) t) h =
    is_blocked_by_exception t
retryable-IsTemporary (io connection_reset) h = is_reset
retryable-IsTemporary (io connection_aborted) h = is_aborted
retryable-IsTemporary (io not_connected) h = is_not_connected
retryable-IsTemporary (io broken_pipe) h = is_broken_pipe
retryable-IsTemporary (io timed_out) h = is_timed_out
retryable-IsTemporary (io interrupted) h = is_interrupted
retryable-IsTemporary (io unexpected_eof) h = is_unexpected_eof
retryable-IsTemporary _ h = absurd (cc)

not_retryable : (e : ConnectionError) → ¬ IsTemporary e → retryable e ≡ false
not_retryable e h = elim (Bool-cases (retryable e)) [
  | inl t ↦ absurd (h (retryable-IsTemporary e t))
  | inr f ↦ f
]

-- As many retries are allowed.
abbrev pub Allows : Option ℕ → ℕ → Type 0
Allows none retries = Unit
Allows (some limit) retries = retries ≤ limit

pub Allows-allow_retry :
    (o : Option ℕ) (retries j : ℕ) → Allows o retries → j < retries → allow_retry o j ≡ true
unfolding allow_retry
Allows-allow_retry none retries j h l = refl
Allows-allow_retry (some limit) retries j h l = lt→ltb j limit (omega arith)

-- The attempt fails with an error that passes.
pub record Fails {A : Type 0} (a : Attempt A) : Type 0 where
  pub error : ConnectionError
  pub failed : a.answer ≡ err error
  pub temporary : IsTemporary error

-- It fails so, and the client reconnects.
pub record IsTransient {A : Type 0} (a : Attempt A) (connection : ℕ) : Type 0 where
  pub fails : Fails a
  pub address : ℕ
  pub found : a.looked_up ≡ ok address
  pub reconnected : a.connected ≡ ok connection

-- How an attempt after some retries ends the loop with an error: with an error that is none of
-- those, or with one of them when all retries that are allowed are used up, or, after one more delay,
-- with the error of the lookup or of the new connection.
pub data Failure (options : OperationRetryOptions) {A : Type 0} (a : Attempt A) (retries : ℕ)
    : List Effect → RetryError → Type 0 where
  is_permanent :
      (e : ConnectionError)
      → a.answer ≡ err e
      → ¬ IsTemporary e
      → Failure options a retries [] (operation_failed e)
  is_exhausted :
      (f : Fails a)
      → options.max_retries ≡ some retries
      → Failure options a retries [] (operation_failed f.error)
  is_lost :
      Fails a
      → Allows options.max_retries (suc retries)
      → (e : RetryError)
      → (a.looked_up ≡ err e) ⊎ ((address : ℕ) × (a.looked_up ≡ ok address) × (a.connected ≡ err e))
      → Failure options a retries (delayed options.retry_delay ∷ []) e

-- The requests of `i` attempts from `k` on, with a delay after each.
abbrev pub tries : (ℕ → ℕ) → ℕ → ℕ → ℕ → List Effect
tries connections delay k zero = []
tries connections delay k (suc i) =
    asked (connections k) ∷ delayed delay ∷ tries connections delay (suc k) i

module _ {A B : Type 0} (options : OperationRetryOptions) (finish : Finish A B) where
  handle_retry_error-Fails :
      (n : ℕ) (a : Attempt A) (f : Fails a)
      → allow_retry options.max_retries n ≡ true
      → handle_retry_error options n f.error a
        ≡ (delayed options.retry_delay ∷ [], a.looked_up >>= λ addr. a.connected)
  unfolding handle_retry_error
  handle_retry_error-Fails n a f h = rw (IsTemporary-retryable f.error f.temporary, h) refl

  on_answer-Fails :
      (c n : ℕ) (a : Attempt A) (rest : ℕ → Run B) (f : Fails a) (r : Result RetryError ℕ)
      → allow_retry options.max_retries n ≡ true
      → (a.looked_up >>= λ addr. a.connected) ≡ r
      → on_answer options finish c n a a.answer rest
        ≡ prepend (asked c ∷ []) (on_retry c (delayed options.retry_delay ∷ [], r) rest)
  unfolding on_answer
  on_answer-Fails c n a rest f r h q =
      ap (λ x. on_answer options finish c n a x rest) f.failed
      ∙ ap (λ (x : List Effect × Result RetryError ℕ). prepend (asked c ∷ []) (on_retry c x rest))
          (handle_retry_error-Fails n a f h
            ∙ ap (λ (x : Result RetryError ℕ). (delayed options.retry_delay ∷ [], x)) q)

  reconnects :
      (a : Attempt A) (d : ℕ) → IsTransient a d → (a.looked_up >>= λ addr. a.connected) ≡ ok d
  reconnects a d t =
      ap (λ (r : Result RetryError ℕ). r >>= λ addr. a.connected) t.found ∙ t.reconnected

  -- An attempt that ends the loop with an error.
  pub retry_loop-Failure :
      (attempts : ℕ → Attempt A) (c n : ℕ) (es : List Effect) (e : RetryError)
      → Failure options (attempts n) n es e
      → retry_loop 1 options finish attempts c n ≡ some (asked c ∷ es, c, err e)
  unfolding retry_loop on_answer on_retry handle_retry_error allow_retry
  retry_loop-Failure attempts c n _ _ (is_permanent e a permanent) =
      rw (a, not_retryable e permanent) refl
  retry_loop-Failure attempts c n _ _ (is_exhausted f limit) =
      rw (f.failed, IsTemporary-retryable f.error f.temporary, limit, ltb_same n) refl
    where
      ltb_same : (n : ℕ) → ltb n n ≡ false
      ltb_same n = ground arith
  retry_loop-Failure attempts c n _ _ (is_lost f allowed e (inl lost)) =
      on_answer-Fails c n (attempts n) _ f (err e)
        (Allows-allow_retry options.max_retries (suc n) n allowed (omega arith))
        (ap (λ (x : Result RetryError ℕ). x >>= λ addr. (attempts n).connected) lost)
  retry_loop-Failure attempts c n _ _ (is_lost f allowed e (inr (address, found, lost))) =
      on_answer-Fails c n (attempts n) _ f (err e)
        (Allows-allow_retry options.max_retries (suc n) n allowed (omega arith))
        (ap (λ (x : Result RetryError ℕ). x >>= λ addr. (attempts n).connected) found ∙ lost)

  -- The attempts that fail for a while, before those that are known to end the loop.
  pub retry_loop-tries :
      (attempts : ℕ → Attempt A) (connections : ℕ → ℕ) (i k l d : ℕ) (es : List Effect)
      (r : Result RetryError B)
      → k + i ≡ l
      → ((j : ℕ) → j < l → IsTransient (attempts j) (connections (suc j)))
      → ((j : ℕ) → j < l → allow_retry options.max_retries j ≡ true)
      → retry_loop 1 options finish attempts (connections l) l ≡ some (es, d, r)
      → retry_loop (suc i) options finish attempts (connections k) k
        ≡ some (tries connections options.retry_delay k i ++ es, d, r)
  unfolding retry_loop on_retry
  retry_loop-tries attempts connections zero k l d es r e t h last =
      let same : l ≡ k = omega arith in
      subst (λ m. retry_loop 1 options finish attempts (connections m) m ≡ some (es, d, r)) same
        last
  retry_loop-tries attempts connections (suc i) k l d es r e t h last =
      let now = t k (omega arith) in
      on_answer-Fails (connections k) k (attempts k) _ now.fails (ok (connections (suc k)))
        (h k (omega arith)) (reconnects (attempts k) (connections (suc k)) now)
      ∙ ap
          (λ x. prepend (asked (connections k) ∷ []) (prepend (delayed options.retry_delay ∷ []) x))
          (retry_loop-tries attempts connections i (suc k) l d es r (omega arith) t h last)
