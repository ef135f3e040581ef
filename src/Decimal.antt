-- ===== src/Decimal.antt =====
-- Numbers in decimal, as `{}` writes them and `str::parse::<usize>` reads them, and the splitting
-- of a text at the last place where another stands (`str::rsplit_once`).
pub mod Parsing
pub mod Splitting
use pulsar_rdg_rs.Prelude.{
  ℕ, zero, suc, ◌+◌, ◌-◌, ◌*◌, ◌/◌, ◌%◌, ◌^◌, Bool, true, false, Option, none, some, List, [], ◌∷◌,
  ◌++◌, ◌&&◌, ltb, leb, ◌==◌, length, drop, if◌then◌else◌,
}
use pulsar_rdg_rs.Bytes.{Text}

-- The decimal digits of a number; there are at most as many as `fuel`.
unfoldable pub digits : ℕ → ℕ → Text
digits zero n = []
digits (suc fuel) n =
    let rest = digits fuel (n / 10) in
    if ltb n 10 then (48 + n) ∷ [] else rest ++ (48 + n % 10) ∷ []

-- `{}` of a number of 64 bits, which has at most 20 digits.
abbrev pub shown : ℕ → Text
shown n = digits 20 n

-- u8::is_ascii_digit
abbrev pub is_ascii_digit : ℕ → Bool
is_ascii_digit c = leb 48 c && leb c 57

-- Digits from the left, behind those that make `acc`, where each step must fit a usize.
unfoldable pub parse_digits : ℕ → Text → Option ℕ
parse_digits acc [] = some acc
parse_digits acc (c ∷ cs) =
    let next = acc * 10 + (c - 48) in
    let rest = parse_digits next cs in if is_ascii_digit c && ltb next (2 ^ 64) then rest else none

-- At least one digit.
unfoldable pub parse_number : Text → Option ℕ
unfolding parse_digits
parse_number [] = none
parse_number (c ∷ cs) = parse_digits 0 (c ∷ cs)

-- str::parse::<usize>, which lets a plus sign stand before the digits.
unfoldable pub parse_usize : Text → Option ℕ
unfolding parse_number
parse_usize [] = none
parse_usize (c ∷ cs) = if c == 43 then parse_number cs else parse_number (c ∷ cs)

unfoldable pub starts_with : Text → Text → Bool
starts_with [] s = true
starts_with (c ∷ cs) [] = false
starts_with (c ∷ cs) (d ∷ ds) = (c == d) && starts_with cs ds

abbrev pub or_here : Text → ℕ → Text → Option (Text × Text) → Option (Text × Text)
or_here delimiter c cs (some (before, after)) = some (c ∷ before, after)
or_here delimiter c cs none =
    if starts_with delimiter (c ∷ cs) then some ([], drop (length delimiter) (c ∷ cs)) else none

-- str::rsplit_once, for a delimiter that is not empty.
unfoldable pub rsplit_once : Text → Text → Option (Text × Text)
unfolding starts_with
rsplit_once delimiter [] = none
rsplit_once delimiter (c ∷ cs) = or_here delimiter c cs (rsplit_once delimiter cs)
