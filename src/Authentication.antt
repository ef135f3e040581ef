-- ===== src/Authentication.antt =====
-- src/authentication/oauth2.rs: `OAuth2Authentication::auth_data` and the token that it caches. An
-- Instant and a Duration are numbers. What the token endpoint answers, the readings of the clock,
-- the product of a duration by 0.9 and
-- the latest Instant are arguments.
use pulsar_rdg_rs.Prelude.{
  ℕ, ◌+◌, Bool, true, false, Option, none, some, List, [], ◌∷◌, Result, ok, err, ◌||◌, leb,
  if◌then◌else◌,
}
use pulsar_rdg_rs.Bytes.{Text}
use pulsar_rdg_rs.Errors.{AuthenticationError, custom}
pub mod Fresh
pub mod Available

pub record CachedToken : Type 0 where
  pub token_secret : List ℕ
  pub expiring_at : Option ℕ
  pub expired_at : Option ℕ

-- BasicTokenResponse, as far as it is read.
pub record TokenResponse : Type 0 where
  pub access_token : List ℕ
  pub expires_in : Option ℕ

-- The error of fetch_token, which may hold an AuthenticationError.
pub data FetchError : Type 0 where
  authentication_error : AuthenticationError → FetchError
  other : Text → FetchError

-- `now.add(d)`, where `none` is its panic: no Instant is behind `latest`.
abbrev pub plus : ℕ → ℕ → ℕ → Option ℕ
plus latest now d = if leb (now + d) latest then some (now + d) else none

abbrev pub living : List ℕ → Option ℕ → Option ℕ → Option CachedToken
living secret (some expiring_at) (some expired_at) =
    some
      record { expiring_at = some expiring_at; expired_at = some expired_at; token_secret = secret }
living secret _ _ = none

abbrev pub token_of : ℕ → (ℕ → ℕ) → ℕ → List ℕ → Option ℕ → Option CachedToken
token_of latest nine_tenths now secret none =
    some record { expiring_at = none; expired_at = none; token_secret = secret }
token_of latest nine_tenths now secret (some d) =
    living secret (plus latest now (nine_tenths d)) (plus latest now d)

-- From<BasicTokenResponse>, where `none` is a panic of one of the sums.
unfoldable pub from_response : ℕ → (ℕ → ℕ) → ℕ → TokenResponse → Option CachedToken
from_response latest nine_tenths now resp =
    token_of latest nine_tenths now resp.access_token resp.expires_in

abbrev pub is_over : ℕ → Option ℕ → Bool
is_over now none = false
is_over now (some at) = leb at now

unfoldable pub is_expiring : ℕ → CachedToken → Bool
is_expiring now token = is_over now token.expiring_at

unfoldable pub is_expired : ℕ → CachedToken → Bool
is_expired now token = is_over now token.expired_at

-- OAuth2Authentication, as far as auth_data reads it.
pub record OAuth2 : Type 0 where
  pub initialized : Bool
  pub token : Option CachedToken

-- What a call meets: three readings of the clock, the answer of fetch_token, and the texts of
-- errors.
pub record Call : Type 0 where
  pub expired_now : ℕ
  pub expiring_now : ℕ
  pub fetched_now : ℕ
  pub fetched : Result FetchError TokenResponse
  pub not_initialized : Text
  pub failed_to_fetch : Text → Text

-- The state after a call, whether it fetched a token, and its result; `none` is a panic, of
-- `unwrap` or of a sum.
pub record AuthData : Type 0 where
  pub after : OAuth2
  pub has_fetched : Bool
  pub result : Option (Result AuthenticationError (List ℕ))

abbrev pub none_or_expired : ℕ → Option CachedToken → Bool
none_or_expired now none = true
none_or_expired now (some token) = is_expired now token

abbrev pub need_token : Call → Option CachedToken → Bool
need_token c none = true
need_token c (some token) = is_expired c.expired_now token || is_expiring c.expiring_now token

-- The last line: the secret of the token that is there.
abbrev pub secret_of : Option CachedToken → Option (Result AuthenticationError (List ℕ))
secret_of none = none
secret_of (some token) = some (ok token.token_secret)

abbrev pub auth_error : Call → FetchError → AuthenticationError
auth_error c (authentication_error e) = e
auth_error c (other e) = custom (c.failed_to_fetch e)

-- The token that was fetched takes the place of the old one.
unfoldable pub on_token : OAuth2 → Option CachedToken → AuthData
on_token o none = record { after = o; has_fetched = true; result = none }
on_token o (some token) = record {
  after = record o { token = some token };
  has_fetched = true;
  result = secret_of (some token);
}

-- The match on the answer of fetch_token.
unfoldable pub on_fetched :
    ℕ → (ℕ → ℕ) → Call → OAuth2 → Bool → Result FetchError TokenResponse → AuthData
unfolding from_response on_token
on_fetched latest nine_tenths c o none_usable (ok resp) =
    on_token o (from_response latest nine_tenths c.fetched_now resp)
on_fetched latest nine_tenths c o true (err e) = record {
  after = record o { token = none };
  has_fetched = true;
  result = some (err (auth_error c e));
}
on_fetched latest nine_tenths c o false (err e) = record {
  after = o;
  has_fetched = true;
  result = secret_of o.token;
}

unfoldable pub auth_data : ℕ → (ℕ → ℕ) → Call → OAuth2 → AuthData
unfolding on_fetched is_expired is_expiring
auth_data latest nine_tenths c o =
    if o.initialized
    then (if need_token c o.token
        then on_fetched latest nine_tenths c o (none_or_expired c.expired_now o.token) c.fetched
        else record { after = o; has_fetched = false; result = secret_of o.token })
    else record { after = o; has_fetched = false; result = some (err (custom c.not_initialized)) }
