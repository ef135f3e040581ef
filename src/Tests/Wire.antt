-- ===== src/Tests/Wire.antt =====
-- Encodings that are inverted by their decodings, built up from the encoding of a number, so that
-- a message type has a `Protobuf` that behaves as prost documents.
use mathlib.Core.List.{append_assoc, append-nil}
use pulsar_rdg_rs.Prelude.{
  ℕ, zero, suc, ◌+◌, ◌%◌, ◌<◌, ◌≡◌, refl, Bool, true, false, Option, none, some, List, [], ◌∷◌,
  ◌++◌, length, arith,
}
use pulsar_rdg_rs.Prelude.Int.{ℤ, pos, negsuc}
use pulsar_rdg_rs.Bytes.{Bytes, Text, u32_mod}
use pulsar_rdg_rs.Proto.{KeyValue, SingleMessageMetadata}
use pulsar_rdg_rs.Codec.{Protobuf, IsProtobuf}

-- `get` reads one value from the front.
pub record Wire (A : Type 0) : Type 0 where
  pub put : A → Bytes
  pub get : Bytes → Option (A × Bytes)
  pub get-put : (a : A) (rest : Bytes) → get (put a ++ rest) ≡ some (a, rest)

abbrev pub then_get : {A B : Type 0} → Option (A × Bytes) → (A → Bytes → Option B) → Option B
then_get none f = none
then_get (some (a, rest)) f = f a rest

abbrev pub get_nat : Bytes → Option (ℕ × Bytes)
get_nat [] = none
get_nat (n ∷ rest) = some (n, rest)

abbrev pub nat : Wire ℕ
nat = record { put = λ n. n ∷ []; get = get_nat; get-put = λ n rest. refl }

module _ {A B : Type 0} (a : Wire A) (b : Wire B) where
  unfoldable pub get_pair : Bytes → Option ((A × B) × Bytes)
  get_pair bytes =
      then_get (a.get bytes) λ x rest. then_get (b.get rest) λ y rest. some ((x, y), rest)

  pub get-put_pair :
      (p : A × B) (rest : Bytes) → get_pair ((a.put p.0 ++ b.put p.1) ++ rest) ≡ some (p, rest)
  unfolding get_pair
  get-put_pair (x, y) rest =
      rw (append_assoc (a.put x) (b.put y) rest, a.get-put x (b.put y ++ rest), b.get-put y rest)

  abbrev pub pair : Wire (A × B)
  pair = record { put = λ p. a.put p.0 ++ b.put p.1; get = get_pair; get-put = get-put_pair }

-- A type whose values are those of another, in other clothes.
module _ {A B : Type 0} (a : Wire A) (to : A → B) (from : B → A)
    (to-from : (b : B) → to (from b) ≡ b) where
  unfoldable pub get_as : Bytes → Option (B × Bytes)
  get_as bytes = then_get (a.get bytes) λ x rest. some (to x, rest)

  pub get-put_as : (b : B) (rest : Bytes) → get_as (a.put (from b) ++ rest) ≡ some (b, rest)
  unfolding get_as
  get-put_as b rest = rw (a.get-put (from b) rest, to-from b)

  abbrev pub via : Wire B
  via = record { put = λ b. a.put (from b); get = get_as; get-put = get-put_as }

module _ {A : Type 0} (a : Wire A) where
  abbrev put_all : List A → Bytes
  put_all [] = []
  put_all (x ∷ xs) = a.put x ++ put_all xs

  unfoldable pub get_all : ℕ → Bytes → Option (List A × Bytes)
  get_all zero bytes = some ([], bytes)
  get_all (suc n) bytes =
      then_get (a.get bytes) λ x rest. then_get (get_all n rest) λ xs rest. some (x ∷ xs, rest)

  get_all-put_all :
      (xs : List A) (rest : Bytes) → get_all (length xs) (put_all xs ++ rest) ≡ some (xs, rest)
  unfolding get_all
  get_all-put_all [] rest = refl
  get_all-put_all (x ∷ xs) rest = rw (
    append_assoc (a.put x) (put_all xs) rest,
    a.get-put x (put_all xs ++ rest),
    get_all-put_all xs rest,
  )

  unfoldable pub get_list : Bytes → Option (List A × Bytes)
  get_list bytes = then_get (get_nat bytes) get_all

  pub get-put_list :
      (xs : List A) (rest : Bytes) → get_list ((length xs ∷ put_all xs) ++ rest) ≡ some (xs, rest)
  unfolding get_list
  get-put_list xs rest = get_all-put_all xs rest

  abbrev pub list : Wire (List A)
  list = record { put = λ xs. length xs ∷ put_all xs; get = get_list; get-put = get-put_list }

abbrev first : {A : Type 0} → List A → Option A
first [] = none
first (x ∷ xs) = some x

abbrev as_list : {A : Type 0} → Option A → List A
as_list none = []
as_list (some a) = a ∷ []

pub first-as_list : {A : Type 0} (o : Option A) → first (as_list o) ≡ o
first-as_list none = refl
first-as_list (some a) = refl

abbrev pub option : {A : Type 0} → Wire A → Wire (Option A)
option a = via (list a) first as_list first-as_list

abbrev is_one : ℕ → Bool
is_one zero = false
is_one (suc n) = true

abbrev as_nat : Bool → ℕ
as_nat false = 0
as_nat true = 1

pub is_one-as_nat : (b : Bool) → is_one (as_nat b) ≡ b
is_one-as_nat false = refl
is_one-as_nat true = refl

abbrev pub bool : Wire Bool
bool = via nat is_one as_nat is_one-as_nat

abbrev signed : Bool × ℕ → ℤ
signed (true, n) = pos n
signed (false, n) = negsuc n

abbrev unsigned : ℤ → Bool × ℕ
unsigned (pos n) = (true, n)
unsigned (negsuc n) = (false, n)

pub signed-unsigned : (n : ℤ) → signed (unsigned n) ≡ n
signed-unsigned (pos n) = refl
signed-unsigned (negsuc n) = refl

abbrev pub int : Wire ℤ
int = via (pair bool nat) signed unsigned signed-unsigned

abbrev pub bytes : Wire Bytes
bytes = list nat

abbrev pub key_value : Wire KeyValue
key_value =
    via (pair bytes bytes) (λ p. record { key = p.0; value = p.1 }) (λ k. (k.key, k.value))
      (λ k. refl)

abbrev Fields : Type 0
Fields =
    List KeyValue
    × (Option Text
        × (ℤ
            × (Option Bool
                × (Option ℕ
                    × (Option Bool × (Option Bytes × (Option ℕ × (Option Bool × Option Bool))))))))

abbrev fields : Wire Fields
fields = pair (list key_value) (
    pair (option bytes) (
      pair int (
        pair (option bool) (
          pair (option nat) (
            pair (option bool)
              (pair (option bytes) (pair (option nat) (pair (option bool) (option bool)))))))))

abbrev to_single : Fields → SingleMessageMetadata
to_single (a, (b, (c, (d, (e, (f, (g, (h, (i, j))))))))) = record {
  properties = a;
  partition_key = b;
  payload_size = c;
  compacted_out = d;
  event_time = e;
  partition_key_b64_encoded = f;
  ordering_key = g;
  sequence_id = h;
  null_value = i;
  null_partition_key = j;
}

abbrev from_single : SingleMessageMetadata → Fields
from_single m = (
  m.properties,
  (
    m.partition_key,
    (
      m.payload_size,
      (
        m.compacted_out,
        (
          m.event_time,
          (
            m.partition_key_b64_encoded,
            (m.ordering_key, (m.sequence_id, (m.null_value, m.null_partition_key))),
          ),
        ),
      ),
    ),
  ),
)

abbrev single : Wire SingleMessageMetadata
single = via fields to_single from_single (λ m. refl)

abbrev whole : {A : Type 0} → Option (A × Bytes) → Option A
whole none = none
whole (some (a, [])) = some a
whole (some (a, b ∷ bs)) = none

module _ {A : Type 0} (a : Wire A) where
  abbrev pub protobuf : Protobuf A
  protobuf = record {
    encoded_len = λ x. length (a.put x);
    encode = a.put;
    decode = λ bs. whole (a.get bs);
  }

  pub protobuf-IsProtobuf : IsProtobuf protobuf
  protobuf-IsProtobuf = record {
    encoded_len-eq-length = λ x. refl;
    decode-encode = λ x. rw (← append-nil (a.put x), a.get-put x []);
  }

abbrev pub singles : Protobuf SingleMessageMetadata
singles = protobuf single

abbrev pub singles-IsProtobuf : IsProtobuf singles
singles-IsProtobuf = protobuf-IsProtobuf single

abbrev total : Bytes → ℕ
total [] = 0
total (b ∷ bs) = b + total bs

-- A checksum of 32 bits.
abbrev pub checksum : Bytes → ℕ
checksum bs = total bs % u32_mod

pub checksum-lt : (bs : Bytes) → checksum bs < u32_mod
checksum-lt bs = omega arith

abbrev pub numbers : Protobuf ℕ
numbers = protobuf nat

abbrev pub numbers-IsProtobuf : IsProtobuf numbers
numbers-IsProtobuf = protobuf-IsProtobuf nat
