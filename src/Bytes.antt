-- ===== src/Bytes.antt =====
-- Big-endian integers as `bytes::BufMut` writes them and `nom::number::streaming` reads them, and
-- the results of nom's streaming parsers (used by message.rs).
use pulsar_rdg_rs.Prelude.{
  ℕ, ◌+◌, ◌*◌, ◌/◌, ◌%◌, ◌^◌, ◌<◌, ◌≡◌, refl, List, [], ◌∷◌, ◌++◌, arith, length, take, drop, ltb,
  take-append, drop-append, length-append, if◌then◌else◌, ap,
}

abbrev pub Bytes : Type 0
Bytes = List ℕ

-- Text as its Unicode code points.
abbrev pub Text : Type 0
Text = List ℕ

abbrev pub u32_mod : ℕ
u32_mod = 2 ^ 32

-- BufMut::put_u32; the argument is a u32, so a wider number has been cut by `as u32`.
unfoldable pub put_u32 : ℕ → Bytes
put_u32 n = (n / 2 ^ 24 % 256) ∷ (n / 2 ^ 16 % 256) ∷ (n / 2 ^ 8 % 256) ∷ (n % 256) ∷ []

unfoldable pub put_u16 : ℕ → Bytes
put_u16 n = (n / 2 ^ 8 % 256) ∷ (n % 256) ∷ []

-- nom's IResult on byte slices: what is left and the value, too few bytes, or a rejected value.
pub data IResult {ℓ} (A : Type ℓ) : Type ℓ where
  done : Bytes → A → IResult A
  incomplete : IResult A
  failed : IResult A

infixl 5 ◌>>=◌
abbrev pub ◌>>=◌ {ℓ κ} : {A : Type ℓ} {B : Type κ} → IResult A → (Bytes → A → IResult B) → IResult B
done i a >>= f = f i a
incomplete >>= f = incomplete
failed >>= f = failed

unfoldable pub be_u16 : Bytes → IResult ℕ
be_u16 (a ∷ b ∷ i) = done i (a * 256 + b)
be_u16 _ = incomplete

unfoldable pub be_u32 : Bytes → IResult ℕ
be_u32 (a ∷ b ∷ c ∷ d ∷ i) = done i (((a * 256 + b) * 256 + c) * 256 + d)
be_u32 _ = incomplete

-- nom::bytes::streaming::take
unfoldable pub take_bytes : ℕ → Bytes → IResult Bytes
take_bytes n i = if ltb (length i) n then incomplete else done (drop n i) (take n i)

pub length-put_u32 : (n : ℕ) → length (put_u32 n) ≡ 4
unfolding put_u32
length-put_u32 n = refl

pub be_u32-put_u32 : (n : ℕ) (i : Bytes) → n < u32_mod → be_u32 (put_u32 n ++ i) ≡ done i n
unfolding be_u32 put_u32
be_u32-put_u32 n i h = ap (done i) (omega arith)

pub be_u16-put_u16 : (n : ℕ) (i : Bytes) → n < 2 ^ 16 → be_u16 (put_u16 n ++ i) ≡ done i n
unfolding be_u16 put_u16
be_u16-put_u16 n i h = ap (done i) (omega arith)

pub take_bytes-append : (xs i : Bytes) → take_bytes (length xs) (xs ++ i) ≡ done i xs
unfolding take_bytes
take_bytes-append xs i =
    rw (take-append xs i, drop-append xs i) (ground (arith, length-append xs i))
