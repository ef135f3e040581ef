-- ===== src/Codec/Frames.antt =====
-- The nom parsers of message.rs: command and payload frames.
use pulsar_rdg_rs.Prelude.{ℕ, ◌<◌, ◌≡◌, ◌++◌, length, arith}
use pulsar_rdg_rs.Bytes.{
  Bytes, IResult, done, ◌>>=◌, be_u16, be_u32, take_bytes, put_u16, put_u32, u32_mod,
  be_u32-put_u32, be_u16-put_u16, take_bytes-append,
}

pub record CommandFrame : Type 0 where
  pub total_size : ℕ
  pub command_size : ℕ
  pub command : Bytes

unfoldable pub command_frame : Bytes → IResult CommandFrame
command_frame i = be_u32 i >>= λ i total_size. be_u32 i >>= λ i command_size.
    take_bytes command_size i >>= λ i command.
    done i (record { total_size = total_size; command_size = command_size; command = command })

pub record PayloadFrame : Type 0 where
  pub magic_number : ℕ
  pub checksum : ℕ
  pub metadata_size : ℕ
  pub metadata : Bytes

unfoldable pub payload_frame : Bytes → IResult PayloadFrame
payload_frame i = be_u16 i >>= λ i magic_number. be_u32 i >>= λ i checksum.
    be_u32 i >>= λ i metadata_size. take_bytes metadata_size i >>= λ i metadata. done i (record {
      magic_number = magic_number;
      checksum = checksum;
      metadata_size = metadata_size;
      metadata = metadata;
    })

pub command_frame-put :
    (total : ℕ) (command rest : Bytes)
    → total < u32_mod
    → length command < u32_mod
    → command_frame (put_u32 total ++ (put_u32 (length command) ++ (command ++ rest)))
      ≡ done rest (record { total_size = total; command_size = length command; command = command })
unfolding command_frame
command_frame-put total command rest ht hc = rw (
  be_u32-put_u32 total (put_u32 (length command) ++ (command ++ rest)) ht,
  be_u32-put_u32 (length command) (command ++ rest) hc,
  take_bytes-append command rest,
)

pub payload_frame-put :
    (checksum : ℕ) (metadata rest : Bytes)
    → checksum < u32_mod
    → length metadata < u32_mod
    → payload_frame
        (put_u16 0x0e01 ++ (put_u32 checksum ++ (put_u32 (length metadata) ++ (metadata ++ rest))))
      ≡ done rest (record {
        magic_number = 0x0e01;
        checksum = checksum;
        metadata_size = length metadata;
        metadata = metadata;
      })
unfolding payload_frame
payload_frame-put checksum metadata rest hc hm = rw (
  be_u16-put_u16 0x0e01 (put_u32 checksum ++ (put_u32 (length metadata) ++ (metadata ++ rest)))
      (omega arith),
  be_u32-put_u32 checksum (put_u32 (length metadata) ++ (metadata ++ rest)) hc,
  be_u32-put_u32 (length metadata) (metadata ++ rest) hm,
  take_bytes-append metadata rest,
)
