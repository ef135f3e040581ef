-- ===== src/Manager/Backoff.antt =====
-- The loop that opens a connection ends, and says why.
use native.Mathlib.Nat.{mul-le-mul_left, pow-le-pow_right}
use pulsar_rdg_rs.Prelude.{
  ℕ, zero, suc, ◌+◌, ◌*◌, ◌^◌, ◌≤◌, ◌<◌, ◌≡◌, ◌⊎◌, min, refl, sym, ap, ◌∙◌, subst, true, false,
  Option, none, some, List, [], ◌∷◌, Result, ok, err, length, le→leb, lt→leb_false, arith,
  Bool-cases, inl, inr, Bool, lt→ltb,
}
use pulsar_rdg_rs.Errors.{ConnectionError, establish_retryable}
use pulsar_rdg_rs.Manager.{ConnectionRetryOptions}
use pulsar_rdg_rs.Manager.Dialing.{
  duration_max, checked, saturating_pow, trace_fits, backoff, Run, delayed, on_attempt, open_loop,
}

abbrev pub AllAtMost : ℕ → List ℕ → Type 0
AllAtMost limit [] = Unit
AllAtMost limit (d ∷ ds) = (d ≤ limit) × AllAtMost limit ds

-- The `i` attempts from `n` on fail with errors after which another attempt is made.
abbrev pub AllRetried : (ℕ → Result ConnectionError ℕ) → ℕ → ℕ → Type 0
AllRetried attempts n zero = Unit
AllRetried attempts n (suc i) =
    ((e : ConnectionError) × (attempts n ≡ err e) × (establish_retryable e ≡ true))
    × AllRetried attempts (suc n) i

-- An end with an error after `i` retries is due to the error, or `k` retries are all there are.
abbrev pub GivesUp : ℕ → ℕ → Result ConnectionError ℕ → Type 0
GivesUp k i (ok conn) = Unit
GivesUp k i (err e) = (establish_retryable e ≡ false) ⊎ (i ≡ k)

GivesUp-suc : (k i : ℕ) (r : Result ConnectionError ℕ) → GivesUp k i r → GivesUp (suc k) (suc i) r
GivesUp-suc k i (ok conn) g = tt
GivesUp-suc k i (err e) (inl f) = inl f
GivesUp-suc k i (err e) (inr q) = inr (ap suc q)

abbrev pub Outcome :
    ConnectionRetryOptions → (ℕ → Result ConnectionError ℕ) → ℕ → ℕ → Option Run → Type 0
Outcome options attempts n k none = ⊥
Outcome options attempts n k (some (ds, r)) =
    (length ds ≤ k)
    × AllAtMost (options.max_backoff + options.min_backoff * 9) ds
    × (r ≡ attempts (n + length ds))
    × AllRetried attempts n (length ds)
    × GivesUp k (length ds) r

module _ (options : ConnectionRetryOptions) (fits : options.min_backoff * 4294967295 ≤ duration_max)
    (fits_sum : options.max_backoff + options.min_backoff * 9 ≤ duration_max) (traced : Bool)
    (fits_trace : (traced ≡ false) ⊎ (options.max_retries ≤ 32)) where
  -- A retry that is allowed can be traced.
  trace_fits-allowed : (n : ℕ) → n < options.max_retries → trace_fits traced n ≡ true
  unfolding trace_fits
  trace_fits-allowed n h = elim fits_trace [
    | inl e ↦ rw e refl
    | inr few ↦ ground (arith, lt→ltb (2 ^ n) (2 ^ 32) (small n (omega (arith, h, few))))
  ]
    where
      small : (n : ℕ) → n < 32 → 2 ^ n < 2 ^ 32
      small n h =
          let bound : 2 ^ n ≤ 2 ^ 31 = pow-le-pow_right (omega arith) {j = 31} (omega arith) in
          omega (arith, bound)

  checked-some : (d : ℕ) → d ≤ duration_max → checked d ≡ some d
  unfolding checked
  checked-some d h = rw (le→leb d duration_max h) refl

  power-fits : (n : ℕ) → options.min_backoff * saturating_pow n ≤ duration_max
  unfolding saturating_pow
  power-fits n = omega (arith, fits, mul-le-mul_left options.min_backoff (min_le n))
    where
      min_le : (n : ℕ) → min (2 ^ n) 4294967295 ≤ 4294967295
      min_le n = omega arith

  jitter-fits : (jitter : ℕ) → jitter < 10 → options.min_backoff * jitter ≤ options.min_backoff * 9
  jitter-fits jitter h = mul-le-mul_left options.min_backoff (omega arith)

  backoff-some :
      (n jitter : ℕ)
      → jitter < 10
      → (d : ℕ) × (backoff options n jitter ≡ some d)
        × (d ≤ options.max_backoff + options.min_backoff * 9)
  unfolding backoff
  backoff-some n jitter h =
      let exponential = options.min_backoff * saturating_pow n in
      let random = options.min_backoff * jitter in
      let small = jitter-fits jitter h in
      let total = min exponential options.max_backoff + random in
      (
        total,
        rw
            (
              checked-some exponential (power-fits n),
              checked-some random (omega (arith, small, fits_sum)),
            )
            (checked-some total (omega (arith, small, fits_sum))),
        omega (arith, small),
      )

  Outcome-delayed :
      (attempts : ℕ → Result ConnectionError ℕ) (n k d : ℕ) (rest : Option Run)
      (e : ConnectionError)
      → attempts n ≡ err e
      → establish_retryable e ≡ true
      → d ≤ options.max_backoff + options.min_backoff * 9
      → Outcome options attempts (suc n) k rest
      → Outcome options attempts n (suc k) (delayed d rest)
  Outcome-delayed attempts n k d none e a p l o = absurd o
  Outcome-delayed attempts n k d (some (ds, r)) e a p l (few, short, same, retried, end_) = (
    omega arith,
    (l, short),
    same ∙ ap attempts (omega arith),
    ((e, a, p), retried),
    GivesUp-suc k (length ds) r end_,
  )

  on_error-Outcome :
      (attempts : ℕ → Result ConnectionError ℕ) (k n jitter : ℕ) (rest : Option Run)
      (e : ConnectionError)
      → err e ≡ attempts n
      → establish_retryable e ≡ true
      → jitter < 10
      → n + k ≡ options.max_retries
      → ((l : ℕ) → k ≡ suc l → Outcome options attempts (suc n) l rest)
      → Outcome options attempts n k (on_attempt traced options n jitter (err e) rest)
  unfolding on_attempt
  on_error-Outcome attempts zero n jitter rest e a p j m h =
      rw (p, le→leb options.max_retries n (omega arith))
        (omega arith, tt, a ∙ ap attempts (omega arith), tt, inr refl)
  on_error-Outcome attempts (suc k) n jitter rest e a p j m h =
      let (d, b, l) = backoff-some n jitter j in
      rw
        (p, lt→leb_false options.max_retries n (omega arith), b, trace_fits-allowed n (omega arith))
        (Outcome-delayed attempts n k d rest e (sym a) p l (h k refl))

  on_attempt-Outcome :
      (attempts : ℕ → Result ConnectionError ℕ) (k n jitter : ℕ) (rest : Option Run)
      (answer : Result ConnectionError ℕ)
      → answer ≡ attempts n
      → jitter < 10
      → n + k ≡ options.max_retries
      → ((l : ℕ) → k ≡ suc l → Outcome options attempts (suc n) l rest)
      → Outcome options attempts n k (on_attempt traced options n jitter answer rest)
  unfolding on_attempt
  on_attempt-Outcome attempts k n jitter rest (ok conn) a j e h =
      (omega arith, tt, a ∙ ap attempts (omega arith), tt, tt)
  on_attempt-Outcome attempts k n jitter rest (err x) a j e h =
      elim (Bool-cases (establish_retryable x)) [
        | inl p ↦ on_error-Outcome attempts k n jitter rest x a p j e h
        | inr p ↦ rw p (omega arith, tt, a ∙ ap attempts (omega arith), tt, inl p)
      ]

  -- Where no product or sum of the configured durations goes beyond what a duration holds, the
  -- random numbers are below 10, and traces are off, overflow is not checked or there are at most
  -- 32 retries, the loop that opens a connection ends within one round more than
  -- the `k` retries that are left, whatever the attempts answer. It waits before every retry for at
  -- most the maximal backoff and nine times the minimal one, ends with what its last attempt
  -- answered, retried only after errors that allow it, and gives up only because of the error or
  -- because no retries are left.
  pub open_loop-Outcome :
      (attempts : ℕ → Result ConnectionError ℕ) (jitter : ℕ → ℕ) (k n : ℕ)
      → ((i : ℕ) → jitter i < 10)
      → n + k ≡ options.max_retries
      → Outcome options attempts n k (open_loop (suc k) traced options attempts jitter n)
  unfolding open_loop
  open_loop-Outcome attempts jitter zero n j e =
      on_attempt-Outcome attempts zero n (jitter n) _ (attempts n) refl (j n) e
        (λ l q. absurd (omega arith))
  open_loop-Outcome attempts jitter (suc k) n j e =
      on_attempt-Outcome attempts (suc k) n (jitter n) _ (attempts n) refl (j n) e (λ l q.
        let same : k ≡ l = omega arith in
        subst
          (λ l.
            Outcome options attempts (suc n) l
              (open_loop (suc k) traced options attempts jitter (suc n)))
          same (open_loop-Outcome attempts jitter k (suc n) j (omega arith)))
