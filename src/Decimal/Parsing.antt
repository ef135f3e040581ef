-- ===== src/Decimal/Parsing.antt =====
-- Reading a number back that has been written in decimal.
use mathlib.Core.List.{append_assoc, append-nil}
use pulsar_rdg_rs.Prelude.{
  ℕ, zero, suc, ◌+◌, ◌*◌, ◌/◌, ◌%◌, ◌^◌, ◌≤◌, ◌<◌, ◌≡◌, refl, sym, ap, ◌∙◌, some, [], ◌∷◌, ◌++◌,
  arith, ltb, ltb→lt, ==_false, subst, Bool-cases, inl, inr,
}
use pulsar_rdg_rs.Bytes.{Text}
use pulsar_rdg_rs.Decimal.{digits, shown, parse_digits, parse_number, parse_usize}

-- One digit is read as the source reads it.
parse_digits-digit :
    (acc d : ℕ) (rest : Text)
    → d < 10
    → acc * 10 + d < 2 ^ 64
    → parse_digits acc ((48 + d) ∷ rest) ≡ parse_digits (acc * 10 + d) rest
unfolding parse_digits
parse_digits-digit acc d rest h k = ground arith

parse_digits-digits :
    (fuel n : ℕ) (rest : Text)
    → n < 10 ^ fuel
    → n < 2 ^ 64
    → parse_digits 0 (digits fuel n ++ rest) ≡ parse_digits n rest
unfolding digits
parse_digits-digits zero n rest h k = ap (λ i. parse_digits i rest) (omega arith)
parse_digits-digits (suc fuel) n rest h k = elim (Bool-cases (ltb n 10)) [
  | inl e ↦
      let small = ltb→lt n 10 e in
      rw e (
        parse_digits-digit 0 n rest small (omega arith)
        ∙ ap (λ i. parse_digits i rest) (omega arith))
  | inr e ↦
      let tens =
        parse_digits-digits fuel (n / 10) ((48 + n % 10) ∷ rest) (omega arith) (omega arith) in
      rw e (
        ap (parse_digits 0) (append_assoc (digits fuel (n / 10)) ((48 + n % 10) ∷ []) rest)
        ∙ tens
        ∙ parse_digits-digit (n / 10) (n % 10) rest (omega arith) (omega arith)
        ∙ ap (λ i. parse_digits i rest) (omega arith))
]

abbrev pub AllDigits : Text → Type 0
AllDigits [] = Unit
AllDigits (c ∷ cs) = (48 ≤ c) × (c ≤ 57) × AllDigits cs

AllDigits-append : (xs ys : Text) → AllDigits xs → AllDigits ys → AllDigits (xs ++ ys)
AllDigits-append [] ys h k = k
AllDigits-append (c ∷ cs) ys (a, b, h) k = (a, b, AllDigits-append cs ys h k)

pub digits-AllDigits : (fuel n : ℕ) → AllDigits (digits fuel n)
unfolding digits
digits-AllDigits zero n = tt
digits-AllDigits (suc fuel) n = elim (Bool-cases (ltb n 10)) [
  | inl e ↦ let small = ltb→lt n 10 e in rw e (omega arith, omega arith, tt)
  | inr e ↦ rw e (
      AllDigits-append (digits fuel (n / 10)) _ (digits-AllDigits fuel (n / 10))
        (omega arith, omega arith, tt))
]

snoc-cons : (xs : Text) (x : ℕ) → (c : ℕ) × (cs : Text) × (xs ++ (x ∷ []) ≡ c ∷ cs)
snoc-cons [] x = (x, [], refl)
snoc-cons (c ∷ cs) x = (c, cs ++ (x ∷ []), refl)

-- The digits of a number are some.
pub digits-cons : (fuel n : ℕ) → (c : ℕ) × (cs : Text) × (digits (suc fuel) n ≡ c ∷ cs)
unfolding digits
digits-cons fuel n = elim (Bool-cases (ltb n 10)) [
  | inl e ↦ (48 + n, [], rw e refl)
  | inr e ↦ rw e (snoc-cons (digits fuel (n / 10)) (48 + n % 10))
]

parse_usize-digit :
    (c : ℕ) (cs : Text) → AllDigits (c ∷ cs) → parse_usize (c ∷ cs) ≡ parse_digits 0 (c ∷ cs)
unfolding parse_usize parse_number
parse_usize-digit c cs (low, high, rest) = rw (==_false c 43 (λ e. omega arith)) refl

pub parse_usize-shown : (n : ℕ) → n < 2 ^ 64 → parse_usize (shown n) ≡ some n
unfolding parse_digits
parse_usize-shown n h =
    let (c, cs, e) = digits-cons 19 n in
    ap parse_usize e
    ∙ parse_usize-digit c cs (subst AllDigits e (digits-AllDigits 20 n))
    ∙ ap (parse_digits 0) (sym e ∙ sym (append-nil (shown n)))
    ∙ parse_digits-digits 20 n [] (omega arith) h
