-- ===== src/Decimal/Splitting.antt =====
-- Where a text is split.
use pulsar_rdg_rs.Prelude.{
  ℕ, ◌≡◌, ◌≢◌, ◌<◌, refl, ap, ◌∙◌, none, some, [], ◌∷◌, ◌++◌, arith, ==_false,
}
use pulsar_rdg_rs.Bytes.{Text}
use pulsar_rdg_rs.Decimal.{starts_with, or_here, rsplit_once}
use pulsar_rdg_rs.Decimal.Parsing.{AllDigits}

-- A text before one that is split stands before its first part.
pub rsplit_once-append :
    (delimiter t s before after : Text)
    → rsplit_once delimiter s ≡ some (before, after)
    → rsplit_once delimiter (t ++ s) ≡ some (t ++ before, after)
unfolding rsplit_once
rsplit_once-append delimiter [] s before after e = e
rsplit_once-append delimiter (c ∷ cs) s before after e =
    ap (or_here delimiter c (cs ++ s)) (rsplit_once-append delimiter cs s before after e)

-- A delimiter that starts with something other than a digit does not stand in a row of digits.
pub rsplit_once-AllDigits :
    (d : ℕ) (ds s : Text) → d < 48 → AllDigits s → rsplit_once (d ∷ ds) s ≡ none
unfolding rsplit_once starts_with
rsplit_once-AllDigits d ds [] h a = refl
rsplit_once-AllDigits d ds (c ∷ cs) h (low, high, a) =
    ap (or_here (d ∷ ds) c cs) (rsplit_once-AllDigits d ds cs h a)
    ∙ rw (==_false d c (λ e. omega arith)) refl

-- In front of a text without the delimiter, a code point other than its first changes nothing.
pub or_here-other :
    (d : ℕ) (ds : Text) (c : ℕ) (cs : Text)
    → d ≢ c
    → rsplit_once (d ∷ ds) cs ≡ none
    → rsplit_once (d ∷ ds) (c ∷ cs) ≡ none
unfolding rsplit_once starts_with
or_here-other d ds c cs h e = ap (or_here (d ∷ ds) c cs) e ∙ rw (==_false d c h) refl
