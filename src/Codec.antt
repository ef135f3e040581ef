-- ===== src/Codec.antt =====
-- src/message.rs: the binary frames that `Codec` writes and reads.
-- The frame code is generic here over the protobuf messages and over the checksum, which are
-- third-party code (prost and crc).
pub mod Frames
pub mod RoundTrip
pub mod Buffer
use pulsar_rdg_rs.Prelude.{
  ℕ, ◌+◌, ◌-◌, ◌≡◌, Bool, Option, none, some, List, [], ◌∷◌, ◌++◌, length, take, drop, leb, ◌==◌,
  if◌then◌else◌, Result, ok, err, ◌>>=◌,
}
use pulsar_rdg_rs.Bytes.{Bytes, put_u32, put_u16, IResult, done, incomplete, failed, be_u32}
use Frames.{CommandFrame, PayloadFrame, command_frame, payload_frame}

-- What the code uses of prost's `Message` trait. `encode` writes to a `Vec`, so it cannot fail.
pub record Protobuf (A : Type 0) : Type 0 where
  pub encoded_len : A → ℕ
  pub encode : A → Bytes
  pub decode : Bytes → Option A

-- prost's documented behaviour.
pub record IsProtobuf {A : Type 0} (p : Protobuf A) : Type 0 where
  pub encoded_len-eq-length : (a : A) → p.encoded_len a ≡ length (p.encode a)
  pub decode-encode : (a : A) → p.decode (p.encode a) ≡ some a

pub data DecodingError : Type 0 where
  bad_command_frame bad_payload_frame bad_protobuf checksum_mismatch : DecodingError

abbrev pub from_nom {ℓ} :
    {A : Type ℓ} → DecodingError → IResult A → Result DecodingError (Bytes × A)
from_nom e (done i a) = ok (i, a)
from_nom e incomplete = err e
from_nom e failed = err e

abbrev pub from_prost {ℓ} : {A : Type ℓ} → Option A → Result DecodingError A
from_prost none = err bad_protobuf
from_prost (some a) = ok a

abbrev pub is_empty {ℓ} : {A : Type ℓ} → List A → Bool
is_empty [] = Bool.true
is_empty (x ∷ xs) = Bool.false

pub record Payload (M : Type 0) : Type 0 where
  pub metadata : M
  pub payload_data : Bytes

pub record Message (C M : Type 0) : Type 0 where
  pub command : C
  pub payload : Option (Payload M)

module _ {C M : Type 0} (commands : Protobuf C) (metadatas : Protobuf M) where
  metadata_size : Option (Payload M) → ℕ
  metadata_size none = 0
  metadata_size (some p) = metadatas.encoded_len p.metadata

  payload_size : Option (Payload M) → ℕ
  payload_size none = 0
  payload_size (some p) = length p.payload_data

  header_size : Option (Payload M) → ℕ
  header_size none = 8
  header_size (some p) = 18

  -- The size of the whole frame without its first field.
  unfoldable pub total_size : Message C M → ℕ
  unfolding metadata_size payload_size header_size
  total_size item =
      commands.encoded_len item.command
      + metadata_size item.payload
      + payload_size item.payload
      + header_size item.payload
      - 4

-- `buf.get_u32()` on a buffer that holds four bytes at least
unfoldable pub get_u32 : Bytes → ℕ
get_u32 src = elim (be_u32 src) [ done i n ↦ n | incomplete ↦ 0 | failed ↦ 0 ]

abbrev advance {ℓ} :
    {A : Type ℓ} → Bytes → ℕ → Result DecodingError A → Result DecodingError (Option A) × Bytes
advance src n (ok m) = (ok (some m), drop n src)
advance src n (err e) = (err e, src)

-- `crc` is CRC_CASTAGNOLI.checksum.
module _ {C M : Type 0} (commands : Protobuf C) (metadatas : Protobuf M) (crc : Bytes → ℕ) where
  -- The checksum's place is written as 0 and filled in at the end.
  unfoldable pub put_payload : Bytes → Payload M → Bytes
  put_payload buf p =
      let buf1 = buf ++ put_u16 0x0e01 in
      let crc_offset = length buf1 in
      let buf2 = buf1 ++ put_u32 0 in
      let metadata_offset = length buf2 in
      let buf3 =
        ((buf2 ++ put_u32 (metadatas.encoded_len p.metadata)) ++ metadatas.encode p.metadata)
        ++ p.payload_data in
      (take crc_offset buf3 ++ put_u32 (crc (drop metadata_offset buf3)))
      ++ drop metadata_offset buf3

  -- Codec::encode; `dst` is the output buffer.
  unfoldable pub encode : Message C M → Bytes → Bytes
  encode item dst =
      let buf =
        (put_u32 (total_size commands metadatas item)
          ++ put_u32 (commands.encoded_len item.command))
        ++ commands.encode item.command in
      dst ++ elim item.payload [ none ↦ buf | some p ↦ put_payload buf p ]

  -- The payload half of Codec::decode, on what follows the command.
  unfoldable pub decode_payload : Bytes → Result DecodingError (Option (Payload M))
  decode_payload buf = if is_empty buf then ok none else (do
    (rest, frame) ← from_nom bad_payload_frame (payload_frame buf)
    metadata ← from_prost (metadatas.decode frame.metadata)
    (if frame.checksum == crc (put_u32 frame.metadata_size ++ frame.metadata ++ rest)
        then ok (some (record { metadata = metadata; payload_data = rest }))
        else err checksum_mismatch))

  unfoldable pub decode_frame : Bytes → Result DecodingError (Message C M)
  unfolding decode_payload
  decode_frame frame = do
    (buf, cf) ← from_nom bad_command_frame (command_frame frame)
    command ← from_prost (commands.decode cf.command)
    payload ← decode_payload buf
    ok (record { command = command; payload = payload })

  -- Codec::decode: the answer, and the input buffer after it.
  unfoldable pub decode : Bytes → Result DecodingError (Option (Message C M)) × Bytes
  decode src =
      if leb 4 (length src)
      then (let message_size = get_u32 src + 4 in
          if leb message_size (length src)
          then advance src message_size (decode_frame (take message_size src))
          else (ok none, src))
      else (ok none, src)
