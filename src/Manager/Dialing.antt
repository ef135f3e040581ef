-- ===== src/Manager/Dialing.antt =====
-- The loop of connect_inner in src/connection_manager.rs that opens a connection. What each attempt
-- answers and the random number that it draws are given. A duration counts nanoseconds; a product
-- or a sum of durations beyond `duration_max` is a panic, and so is a checked power that does not
-- fit its type; a panic is `none` here.
use pulsar_rdg_rs.Prelude.{
  Bool, not, ◌||◌, ltb, ℕ, zero, suc, ◌+◌, ◌*◌, ◌^◌, min, Option, none, some, List, [], ◌∷◌, Result,
  ok, err, leb, if◌then◌else◌,
}
use pulsar_rdg_rs.Errors.{ConnectionError, establish_retryable}
use pulsar_rdg_rs.Manager.{ConnectionRetryOptions}

-- `u64::MAX` seconds and 999,999,999 nanoseconds.
abbrev pub duration_max : ℕ
duration_max = 18446744073709551615999999999

unfoldable pub checked : ℕ → Option ℕ
checked d = if leb d duration_max then some d else none

-- 2u32.saturating_pow
unfoldable pub saturating_pow : ℕ → ℕ
saturating_pow n = min (2 ^ n) 4294967295

abbrev pub bind : {A B : Type 0} → Option A → (A → Option B) → Option B
bind none f = none
bind (some a) f = f a

unfoldable pub backoff : ConnectionRetryOptions → ℕ → ℕ → Option ℕ
unfolding checked saturating_pow
backoff options current_retries jitter =
    bind (checked (options.min_backoff * saturating_pow current_retries)) (λ exponential.
      bind (checked (options.min_backoff * jitter))
        (λ random. checked (min exponential options.max_backoff + random)))

-- The delays of a run of the loop, and what it ends with.
abbrev pub Run : Type 0
Run = List ℕ × Result ConnectionError ℕ

abbrev pub delayed : ℕ → Option Run → Option Run
delayed d none = none
delayed d (some (ds, r)) = some (d ∷ ds, r)

-- The `trace!` before the delay computes `2u32.pow(current_retries - 1)` for its text. The power is
-- checked where `traced`: the log takes traces, and the build has overflow checks.
unfoldable pub trace_fits : Bool → ℕ → Bool
trace_fits traced current_retries = not traced || ltb (2 ^ current_retries) (2 ^ 32)

-- One attempt, with its answer, and what the loop does after the delay that it asks for.
unfoldable pub on_attempt :
    Bool → ConnectionRetryOptions → ℕ → ℕ → Result ConnectionError ℕ → Option Run → Option Run
unfolding establish_retryable backoff trace_fits
on_attempt traced options n jitter (ok conn) rest = some ([], ok conn)
on_attempt traced options n jitter (err e) rest =
    if establish_retryable e
    then (if leb options.max_retries n
        then some ([], err e)
        else bind (backoff options n jitter)
            (λ d. if trace_fits traced n then delayed d rest else none))
    else some ([], err e)

unfoldable pub open_loop :
    ℕ → Bool → ConnectionRetryOptions → (ℕ → Result ConnectionError ℕ) → (ℕ → ℕ) → ℕ → Option Run
unfolding on_attempt
open_loop zero traced options attempts jitter n = none
open_loop (suc fuel) traced options attempts jitter n =
    on_attempt traced options n (jitter n) (attempts n)
      (open_loop fuel traced options attempts jitter (suc n))
