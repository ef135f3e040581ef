-- ===== src/Authentication/Fresh.antt =====
-- Which token `auth_data` hands out, and when it fails.
use mathlib.Core.Path.{ap₂}
use pulsar_rdg_rs.Prelude.{
  ◌<◌, ◌+◌, leb, ◌∙◌, List, ℕ, ◌≡◌, ◌⊎◌, inl, inr, refl, Bool, true, false, Option, none, some,
  Result, ok, err, arith, Bool-cases, subst, sym,
}
use pulsar_rdg_rs.Authentication.{
  CachedToken, plus, living, token_of, on_token, TokenResponse, FetchError, OAuth2, Call, AuthData,
  from_response, is_expired, none_or_expired, need_token, auth_error, on_fetched, auth_data,
}

-- The token was fetched in this call, or it was there and not expired when it was looked at.
abbrev pub IsFresh : ℕ → (ℕ → ℕ) → Call → OAuth2 → CachedToken → Type 0
IsFresh latest nine_tenths c o t =
    ((resp : TokenResponse) × (c.fetched ≡ ok resp)
      × (from_response latest nine_tenths c.fetched_now resp ≡ some t))
    ⊎ ((o.token ≡ some t) × (is_expired c.expired_now t ≡ false))

-- An Instant cannot hold the end of the token's life, or nine tenths of it.
abbrev pub IsTooLong : ℕ → (ℕ → ℕ) → ℕ → TokenResponse → Type 0
IsTooLong latest nine_tenths now resp =
    (d : ℕ) × (resp.expires_in ≡ some d) × ((latest < now + nine_tenths d) ⊎ (latest < now + d))

-- The call hands out the secret of such a token, which it keeps; or the fetch failed, no token that
-- can be used was there, and none is kept; or it panics over the life of the token it has fetched.
abbrev pub Outcome : ℕ → (ℕ → ℕ) → Call → OAuth2 → AuthData → Type 0
Outcome latest nine_tenths c o d =
    ((t : CachedToken) × (d.result ≡ some (ok t.token_secret))
      × (d.after.token ≡ some t)
      × IsFresh latest nine_tenths c o t)
    ⊎ (((e : FetchError) × (d.result ≡ some (err (auth_error c e)))
          × (c.fetched ≡ err e)
          × (none_or_expired c.expired_now o.token ≡ true)
          × (d.after.token ≡ none))
        ⊎ ((resp : TokenResponse) × (d.result ≡ none)
            × (c.fetched ≡ ok resp)
            × IsTooLong latest nine_tenths c.fetched_now resp))

abbrev pub client : Option CachedToken → OAuth2
client token = record { initialized = true; token = token }

module _ (latest : ℕ) (nine_tenths : ℕ → ℕ) where
  plus-cases :
      (now d : ℕ)
      → (plus latest now d ≡ some (now + d)) ⊎ ((plus latest now d ≡ none) × (latest < now + d))
  plus-cases now d = elim (Bool-cases (leb (now + d) latest)) [
    | inl e ↦ inl (rw e refl)
    | inr e ↦ inr (rw e refl, ground (arith, e))
  ]

  token_of-TooLong :
      (now : ℕ) (secret : List ℕ) (o : Option ℕ)
      → token_of latest nine_tenths now secret o ≡ none
      → (d : ℕ) × (o ≡ some d) × ((latest < now + nine_tenths d) ⊎ (latest < now + d))
  token_of-TooLong now secret none h = absurd (cc)
  token_of-TooLong now secret (some d) h = elim (plus-cases now (nine_tenths d)) [
    | inr (e, l) ↦ (d, refl, inl l)
    | inl e ↦ elim (plus-cases now d) [
      | inr (f, l) ↦ (d, refl, inr l)
      | inl f ↦ absurd (none_living (sym h ∙ ap₂ (living secret) e f))
    ]
  ]
    where
      none_living : ¬ (none ≡ living secret (some (now + nine_tenths d)) (some (now + d)))
      none_living e = cc

  from_response-IsTooLong :
      (now : ℕ) (resp : TokenResponse)
      → from_response latest nine_tenths now resp ≡ none
      → IsTooLong latest nine_tenths now resp
  unfolding from_response
  from_response-IsTooLong now resp h = token_of-TooLong now resp.access_token resp.expires_in h

module _ (latest : ℕ) (nine_tenths : ℕ → ℕ) (c : Call) where
  on_token-Outcome :
      (o : OAuth2) (resp : TokenResponse) (token : Option CachedToken)
      → c.fetched ≡ ok resp
      → from_response latest nine_tenths c.fetched_now resp ≡ token
      → Outcome latest nine_tenths c o (on_token o token)
  unfolding on_token
  on_token-Outcome o resp none f h =
      inr (inr (resp, refl, f, from_response-IsTooLong latest nine_tenths c.fetched_now resp h))
  on_token-Outcome o resp (some t) f h = inl (t, refl, refl, inl (resp, f, h))

  on_fetched-none :
      (fetched : Result FetchError TokenResponse)
      → c.fetched ≡ fetched
      → Outcome latest nine_tenths c
          (client none)
          (on_fetched latest nine_tenths c (client none) true fetched)
  unfolding on_fetched
  on_fetched-none (ok resp) f = on_token-Outcome (client none) resp _ f refl
  on_fetched-none (err e) f = inr (inl (e, refl, f, refl, refl))

  on_fetched-some :
      (t : CachedToken) (expired : Bool) (fetched : Result FetchError TokenResponse)
      → is_expired c.expired_now t ≡ expired
      → c.fetched ≡ fetched
      → Outcome latest nine_tenths c
          (client (some t))
          (on_fetched latest nine_tenths c (client (some t)) expired fetched)
  unfolding on_fetched
  on_fetched-some t expired (ok resp) h f = on_token-Outcome (client (some t)) resp _ f refl
  on_fetched-some t true (err e) h f = inr (inl (e, refl, f, h, refl))
  on_fetched-some t false (err e) h f = inl (t, refl, refl, inr (refl, h))

  client-Outcome :
      (token : Option CachedToken)
      → Outcome latest nine_tenths c (client token) (auth_data latest nine_tenths c (client token))
  unfolding auth_data
  client-Outcome none = on_fetched-none c.fetched refl
  client-Outcome (some t) = elim (Bool-cases (need_token c (some t))) [
    | inl need ↦ rw need (on_fetched-some t (is_expired c.expired_now t) c.fetched refl refl)
    | inr idle ↦ rw idle (inl (t, refl, refl, inr (refl, ground (arith, idle))))
  ]

-- A call on an initialised client never runs into the panic of a missing token. It hands out the
-- secret of a token that was fetched in this very call, or that was there and had not expired when
-- the call looked at it, and keeps this token; or it fails, and keeps no token, and then the fetch
-- has failed with this error while there was no token or an expired one; or it panics, and then it
-- has fetched a token whose life, or nine tenths of it, ends behind the latest Instant.
pub auth_data-Outcome :
    (latest : ℕ) (nine_tenths : ℕ → ℕ) (c : Call) (o : OAuth2)
    → o.initialized ≡ true
    → Outcome latest nine_tenths c o (auth_data latest nine_tenths c o)
auth_data-Outcome latest nine_tenths c o i =
    subst
      (λ b.
        let o' : OAuth2 = record { initialized = b; token = o.token } in
        Outcome latest nine_tenths c o' (auth_data latest nine_tenths c o'))
      (sym i) (client-Outcome latest nine_tenths c o.token)
