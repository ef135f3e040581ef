-- ===== src/Tests/Frames.antt =====
-- src/message.rs: frames at concrete inputs.
use pulsar_rdg_rs.Prelude.{ℕ, ◌≡◌, none, some, [], ◌∷◌, ◌++◌, ok, arith}
use pulsar_rdg_rs.Bytes.{Bytes, put_u32, put_u16}
use pulsar_rdg_rs.Codec.{Message, encode, decode, total_size}
use pulsar_rdg_rs.Codec.RoundTrip.{decode-encode, body}
use pulsar_rdg_rs.Codec.Buffer.{Outcome, decode-Outcome}
use pulsar_rdg_rs.Tests.Wire.{numbers, numbers-IsProtobuf, checksum, checksum-lt}

abbrev sent : Message ℕ ℕ
sent = record {
  command = 5;
  payload = some (record { metadata = 7; payload_data = 1 ∷ 2 ∷ 3 ∷ [] });
}

decode-encode_example :
    decode numbers numbers checksum (encode numbers numbers checksum sent [] ++ 9 ∷ [])
    ≡ (ok (some sent), 9 ∷ [])
decode-encode_example =
    decode-encode numbers numbers checksum numbers-IsProtobuf numbers-IsProtobuf checksum-lt sent
      (9 ∷ []) (unfold total_size in omega arith)

decode-Outcome_example :
    Outcome numbers numbers checksum
      (0 ∷ 0 ∷ 0 ∷ [])
      (decode numbers numbers checksum (0 ∷ 0 ∷ 0 ∷ []))
decode-Outcome_example = decode-Outcome numbers numbers checksum (0 ∷ 0 ∷ 0 ∷ [])

abbrev bare : Message ℕ ℕ
bare = record { command = 5; payload = none }

-- The checksum field holds 3.
abbrev damaged : Bytes
damaged =
    (put_u32 (total_size numbers numbers sent)
      ++ (put_u32 1
          ++ (5 ∷ []
              ++ (put_u16 0x0e01
                  ++ (put_u32 3
                      ++ body numbers numbers checksum
                          (record { metadata = 7; payload_data = 1 ∷ 2 ∷ 3 ∷ [] }))))))
    ++ []
