-- ===== src/Tests/Tokens.antt =====
-- A client with a cached token at which the theorems about it are applied.
use pulsar_rdg_rs.Prelude.{ℕ, ◌*◌, ◌/◌, refl, true, some, [], ◌∷◌, ok, err, arith}
use pulsar_rdg_rs.Authentication.{OAuth2, Call, other, auth_data, from_response}
use pulsar_rdg_rs.Authentication.Fresh.{Outcome, auth_data-Outcome}
use pulsar_rdg_rs.Authentication.Available.{AllOk, AreBefore, calls, calls-AllOk}

abbrev nine_tenths : ℕ → ℕ
nine_tenths d = d * 9 / 10

abbrev cached : OAuth2
cached = record {
  initialized = true;
  token = some (record { token_secret = 1 ∷ []; expiring_at = some 90; expired_at = some 100 });
}

-- The endpoint cannot be reached.
abbrev unlucky : ℕ → Call
unlucky now = record {
  expired_now = now;
  expiring_now = now;
  fetched_now = now;
  fetched = err (other []);
  not_initialized = [];
  failed_to_fetch = λ e. e;
}

abbrev lucky : ℕ → Call
lucky now = record (unlucky now) {
  fetched = ok (record { access_token = 2 ∷ []; expires_in = some 50 });
}

auth_data-Outcome_example :
    Outcome 1000000 nine_tenths
      (unlucky 95)
      cached
      (auth_data 1000000 nine_tenths (unlucky 95) cached)
auth_data-Outcome_example = auth_data-Outcome 1000000 nine_tenths (unlucky 95) cached refl

in_time : AreBefore 1000000 nine_tenths 100 (unlucky 50 ∷ unlucky 92 ∷ lucky 95 ∷ unlucky 99 ∷ [])
unfolding from_response
in_time = (
  (omega arith, tt),
  (
    (omega arith, tt),
    ((omega arith, (omega arith, omega arith, omega arith)), ((omega arith, tt), tt)),
  ),
)

calls-AllOk_example :
    AllOk (calls 1000000 nine_tenths (unlucky 50 ∷ unlucky 92 ∷ lucky 95 ∷ unlucky 99 ∷ []) cached)
calls-AllOk_example =
    calls-AllOk 1000000 nine_tenths 100 (unlucky 50 ∷ unlucky 92 ∷ lucky 95 ∷ unlucky 99 ∷ [])
      cached
      record {
        initialized = refl;
        token = record { token_secret = 1 ∷ []; expiring_at = some 90; expired_at = some 100 };
        held = refl;
        lives = omega arith;
      }
      in_time
