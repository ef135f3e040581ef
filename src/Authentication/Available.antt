-- ===== src/Authentication/Available.antt =====
-- A client that has a token hands out tokens until the token expires.
use mathlib.Core.Path.{ap₂}
use pulsar_rdg_rs.Prelude.{
  ◌+◌, le→leb, ℕ, ◌≡◌, ◌<◌, ◌≤◌, inl, inr, refl, Bool, true, false, Option, none, some, List, [],
  ◌∷◌, Result, ok, err, arith, sym, subst, ap, ◌∙◌,
}
use pulsar_rdg_rs.Authentication.{
  CachedToken, plus, token_of, living, on_token, FetchError, TokenResponse, OAuth2, Call, AuthData,
  from_response, is_over, is_expired, auth_data, on_fetched, none_or_expired,
}
use pulsar_rdg_rs.Authentication.Fresh.{Outcome, auth_data-Outcome}

abbrev pub IsAfter : ℕ → Option ℕ → Type 0
IsAfter deadline none = Unit
IsAfter deadline (some at) = deadline ≤ at

-- The token does not expire before the deadline.
abbrev pub LivesUntil : ℕ → CachedToken → Type 0
LivesUntil deadline t = IsAfter deadline t.expired_at

-- A life from now on ends at the deadline or later, and an Instant can hold its ends.
abbrev pub Lasts : ℕ → (ℕ → ℕ) → ℕ → ℕ → Option ℕ → Type 0
Lasts latest nine_tenths deadline now none = Unit
Lasts latest nine_tenths deadline now (some d) =
    (deadline ≤ now + d) × (now + d ≤ latest) × (now + nine_tenths d ≤ latest)

abbrev pub FetchesUntil : ℕ → (ℕ → ℕ) → ℕ → Call → Result FetchError TokenResponse → Type 0
FetchesUntil latest nine_tenths deadline c (ok resp) =
    Lasts latest nine_tenths deadline c.fetched_now resp.expires_in
FetchesUntil latest nine_tenths deadline c (err e) = Unit

-- The calls look at the clock before the deadline, no token that they fetch expires before it,
-- and Instants can hold the ends of their lives.
abbrev pub AreBefore : ℕ → (ℕ → ℕ) → ℕ → List Call → Type 0
AreBefore latest nine_tenths deadline [] = Unit
AreBefore latest nine_tenths deadline (c ∷ cs) =
    ((c.expired_now < deadline) × FetchesUntil latest nine_tenths deadline c c.fetched)
    × AreBefore latest nine_tenths deadline cs

-- Calls one after the other, and what they give.
unfoldable pub calls : ℕ → (ℕ → ℕ) → List Call → OAuth2 → List AuthData
calls latest nine_tenths [] o = []
calls latest nine_tenths (c ∷ cs) o =
    let d = auth_data latest nine_tenths c o in d ∷ calls latest nine_tenths cs d.after

abbrev pub AllOk : List AuthData → Type 0
AllOk [] = Unit
AllOk (d ∷ ds) = ((secret : List ℕ) × (d.result ≡ some (ok secret))) × AllOk ds

not_over :
    (now deadline : ℕ) (at : Option ℕ)
    → now < deadline
    → IsAfter deadline at
    → is_over now at ≡ false
not_over now deadline none h l = refl
not_over now deadline (some at) h l = ground arith

-- A client with a token that lives until the deadline.
pub record IsSupplied (deadline : ℕ) (o : OAuth2) : Type 0 where
  pub initialized : o.initialized ≡ true
  pub token : CachedToken
  pub held : o.token ≡ some token
  pub lives : LivesUntil deadline token

on_token-initialized :
    (o : OAuth2) (token : Option CachedToken) → (on_token o token).after.initialized ≡ o.initialized
unfolding on_token
on_token-initialized o none = refl
on_token-initialized o (some token) = refl

on_fetched-initialized :
    (latest : ℕ) (nine_tenths : ℕ → ℕ) (c : Call) (o : OAuth2) (none_usable : Bool)
    (fetched : Result FetchError TokenResponse)
    → (on_fetched latest nine_tenths c o none_usable fetched).after.initialized ≡ o.initialized
unfolding on_fetched
on_fetched-initialized latest nine_tenths c o none_usable (ok resp) =
    on_token-initialized o (from_response latest nine_tenths c.fetched_now resp)
on_fetched-initialized latest nine_tenths c o true (err e) = refl
on_fetched-initialized latest nine_tenths c o false (err e) = refl

auth_data-initialized :
    (latest : ℕ) (nine_tenths : ℕ → ℕ) (c : Call) (o : OAuth2)
    → (auth_data latest nine_tenths c o).after.initialized ≡ o.initialized
unfolding auth_data
auth_data-initialized latest nine_tenths c o =
    let fetched =
      on_fetched-initialized latest nine_tenths c o (none_or_expired c.expired_now o.token)
        c.fetched in
    ground (arith, fetched)

FetchesUntil-ok :
    (latest : ℕ) (nine_tenths : ℕ → ℕ) (deadline : ℕ) (c : Call) (resp : TokenResponse)
    → c.fetched ≡ ok resp
    → FetchesUntil latest nine_tenths deadline c c.fetched
    → Lasts latest nine_tenths deadline c.fetched_now resp.expires_in
FetchesUntil-ok latest nine_tenths deadline c resp e h =
    subst (FetchesUntil latest nine_tenths deadline c) e h

Lasts-fits :
    (latest : ℕ) (nine_tenths : ℕ → ℕ) (deadline now d : ℕ) (o : Option ℕ)
    → o ≡ some d
    → Lasts latest nine_tenths deadline now o
    → (now + d ≤ latest) × (now + nine_tenths d ≤ latest)
Lasts-fits latest nine_tenths deadline now d o e h =
    let held = subst (Lasts latest nine_tenths deadline now) e h in (held.1, held.2)

plus-some : (latest now d : ℕ) → now + d ≤ latest → plus latest now d ≡ some (now + d)
plus-some latest now d h = rw (le→leb (now + d) latest h) refl

token_of-LivesUntil :
    (latest : ℕ) (nine_tenths : ℕ → ℕ) (deadline now : ℕ) (secret : List ℕ) (o : Option ℕ)
    (t : CachedToken)
    → token_of latest nine_tenths now secret o ≡ some t
    → Lasts latest nine_tenths deadline now o
    → LivesUntil deadline t
token_of-LivesUntil latest nine_tenths deadline now secret none t e h =
    subst (IsAfter deadline) (ap (λ o. expiry o) e) tt
  where
    expiry : Option CachedToken → Option ℕ
    expiry none = none
    expiry (some t) = t.expired_at
token_of-LivesUntil latest nine_tenths deadline now secret (some d) t e (long, end_, early) =
    let made : living secret (some (now + nine_tenths d)) (some (now + d)) ≡ some t =
      sym (
        ap₂ (living secret) (plus-some latest now (nine_tenths d) early)
          (plus-some latest now d end_))
      ∙ e in
    subst (IsAfter deadline) (ap (λ o. expiry o) made) long
  where
    expiry : Option CachedToken → Option ℕ
    expiry none = none
    expiry (some t) = t.expired_at

-- One call.
abbrev Supplies : ℕ → OAuth2 → AuthData → Type 0
Supplies deadline o d =
    ((secret : List ℕ) × (d.result ≡ some (ok secret))) × IsSupplied deadline d.after

Outcome-Supplies :
    (latest : ℕ) (nine_tenths : ℕ → ℕ) (deadline : ℕ) (c : Call) (o : OAuth2) (d : AuthData)
    → IsSupplied deadline o
    → c.expired_now < deadline
    → FetchesUntil latest nine_tenths deadline c c.fetched
    → d.after.initialized ≡ true
    → Outcome latest nine_tenths c o d
    → Supplies deadline o d
unfolding is_expired
Outcome-Supplies latest nine_tenths deadline c o d s b f i (inl (t, r, kept, inl (resp, e, same))) =
    (
      (t.token_secret, r),
      record {
        initialized = i;
        token = t;
        held = kept;
        lives =
            token_of-LivesUntil latest nine_tenths deadline c.fetched_now resp.access_token
              resp.expires_in t (unfold from_response in same)
              (FetchesUntil-ok latest nine_tenths deadline c resp e f);
      },
    )
Outcome-Supplies latest nine_tenths deadline c o d s b f i (inl (t, r, kept, inr (e, usable))) =
    let same : s.token ≡ t = cc (s.held, e) in
    (
      (t.token_secret, r),
      record {
        initialized = i;
        token = t;
        held = kept;
        lives = subst (LivesUntil deadline) same s.lives;
      },
    )
Outcome-Supplies latest nine_tenths deadline c o d s b f i
      (inr (inl (e, r, failed, expired, kept))) =
    absurd (
      cc (
        expired,
        ap (none_or_expired c.expired_now) s.held,
        not_over c.expired_now deadline s.token.expired_at b s.lives,
      ))
Outcome-Supplies latest nine_tenths deadline c o d s b f i
      (inr (inr (resp, r, e, (life, long, too_long)))) =
    let fits =
      Lasts-fits latest nine_tenths deadline c.fetched_now life resp.expires_in long
        (FetchesUntil-ok latest nine_tenths deadline c resp e f) in
    elim too_long [
      | inl l ↦ absurd (omega (arith, l, fits))
      | inr l ↦ absurd (omega (arith, l, fits))
    ]

-- A client that is initialised and has a token that lives until a deadline answers every call with
-- a token, as long as the calls look at the clock before the deadline, and no token that they fetch
-- expires before it or lives, or lives nine tenths of its time, until after the latest Instant,
-- even if every fetch fails.
pub calls-AllOk :
    (latest : ℕ) (nine_tenths : ℕ → ℕ) (deadline : ℕ) (cs : List Call) (o : OAuth2)
    → IsSupplied deadline o
    → AreBefore latest nine_tenths deadline cs
    → AllOk (calls latest nine_tenths cs o)
unfolding calls
calls-AllOk latest nine_tenths deadline [] o s h = tt
calls-AllOk latest nine_tenths deadline (c ∷ cs) o s h =
    let d : AuthData = auth_data latest nine_tenths c o in
    let (result, supplied) =
      Outcome-Supplies latest nine_tenths deadline c o d s h.0.0 h.0.1
        (auth_data-initialized latest nine_tenths c o ∙ s.initialized)
        (auth_data-Outcome latest nine_tenths c o s.initialized) in
    (result, calls-AllOk latest nine_tenths deadline cs d.after supplied h.1)
