-- ===== src/Codec/RoundTrip.antt =====
-- What `Codec::encode` writes, and that `Codec::decode` reads it back.
use mathlib.Core.List.{append_assoc, append-nil}
use pulsar_rdg_rs.Prelude.{
  ℕ, ◌+◌, ◌<◌, ◌≡◌, refl, ap, ◌∙◌, Option, none, some, [], ◌++◌, length, take, drop, arith, ok, err,
  take-append, drop-append, length-append, le→leb, if◌then◌else◌, ◌==◌, ==_iff, false,
}
use pulsar_rdg_rs.Bytes.{Bytes, put_u32, put_u16, be_u32, length-put_u32, u32_mod}
use pulsar_rdg_rs.Codec.Frames.{command_frame-put, payload_frame-put}
use pulsar_rdg_rs.Codec.{
  Protobuf, IsProtobuf, Payload, Message, encode, put_payload, total_size, decode, decode_frame,
  decode_payload, is_empty, advance, get_u32, checksum_mismatch,
}

-- Filling in a slot `z` between a head and a tail, as `put_payload` does with the checksum.
fill_slot :
    (head z buf tail : Bytes) (f : Bytes → Bytes)
    → buf ≡ (head ++ z) ++ tail
    → (take (length head) buf ++ f (drop (length (head ++ z)) buf)) ++ drop (length (head ++ z)) buf
      ≡ head ++ (f tail ++ tail)
fill_slot head z buf tail f e =
    rw (e, drop-append (head ++ z) tail)
      (rw (append_assoc head z tail)
        (rw (take-append head (z ++ tail)) (append_assoc head (f tail) tail)))

pub is_empty-put_u16 : (n : ℕ) (i : Bytes) → is_empty (put_u16 n ++ i) ≡ false
unfolding put_u16
is_empty-put_u16 n i = refl

module _ {C M : Type 0} (commands : Protobuf C) (metadatas : Protobuf M) (crc : Bytes → ℕ) where
  -- The part of a payload that the checksum covers.
  abbrev pub body : Payload M → Bytes
  body p =
      put_u32 (metadatas.encoded_len p.metadata) ++ (metadatas.encode p.metadata ++ p.payload_data)

  abbrev pub payload_bytes : Option (Payload M) → Bytes
  payload_bytes none = []
  payload_bytes (some p) = put_u16 0x0e01 ++ (put_u32 (crc (body p)) ++ body p)

  -- A frame as the protocol lays it out.
  abbrev pub frame : Message C M → Bytes
  frame m =
      put_u32 (total_size commands metadatas m)
      ++ (put_u32 (commands.encoded_len m.command)
          ++ (commands.encode m.command ++ payload_bytes m.payload))

  put_payload-eq :
      (buf : Bytes) (p : Payload M)
      → put_payload commands metadatas crc buf p ≡ buf ++ payload_bytes (some p)
  unfolding put_payload
  put_payload-eq buf p =
      fill_slot (buf ++ put_u16 0x0e01) (put_u32 0) _ (body p) (λ t. put_u32 (crc t))
        (simp append_assoc)
      ∙ append_assoc buf _ _

  -- What `encode` appends to its output buffer.
  pub encode-frame :
      (m : Message C M) (dst : Bytes) → encode commands metadatas crc m dst ≡ dst ++ frame m
  unfolding encode
  encode-frame m dst = ap (◌++◌ dst) (go m.payload)
    where
      head : Bytes
      head =
          (put_u32 (total_size commands metadatas m) ++ put_u32 (commands.encoded_len m.command))
          ++ commands.encode m.command

      go :
          (p : Option (Payload M))
          → (elim p [ none ↦ head | some q ↦ put_payload commands metadatas crc head q ])
            ≡ put_u32 (total_size commands metadatas m)
              ++ (put_u32 (commands.encoded_len m.command)
                  ++ (commands.encode m.command ++ payload_bytes p))
      go none = simp (append_assoc, append-nil)
      go (some q) = rw (put_payload-eq head q) (simp append_assoc)

-- `decode` on a buffer whose first field gives the length of the frame that it begins with.
module _ {C M : Type 0} (commands : Protobuf C) (metadatas : Protobuf M) (crc : Bytes → ℕ) where
  pub decode_ready :
      (f rest : Bytes) (n : ℕ)
      → get_u32 (f ++ rest) ≡ n
      → length f ≡ n + 4
      → decode commands metadatas crc (f ++ rest)
        ≡ advance (f ++ rest) (n + 4) (decode_frame commands metadatas crc f)
  unfolding decode
  decode_ready f rest n e l = rw (
    e,
    le→leb 4 (length (f ++ rest)) (omega (arith, length-append f rest)),
    le→leb (n + 4) (length (f ++ rest)) (omega (arith, length-append f rest)),
    ← l,
    take-append f rest,
  )

module _ {C M : Type 0} (commands : Protobuf C) (metadatas : Protobuf M) (crc : Bytes → ℕ)
    (is_commands : IsProtobuf commands) (is_metadatas : IsProtobuf metadatas)
    (crc_u32 : (b : Bytes) → crc b < u32_mod) where
  pub length-payload :
      (p : Payload M)
      → length (payload_bytes commands metadatas crc (some p))
        ≡ metadatas.encoded_len p.metadata + length p.payload_data + 10
  unfolding put_u16
  length-payload p =
      omega
        (arith, length-append {0}, length-put_u32, is_metadatas.encoded_len-eq-length p.metadata)

  pub length-frame :
      (m : Message C M)
      → length (frame commands metadatas crc m) ≡ total_size commands metadatas m + 4
  unfolding total_size
  length-frame m = go m.payload
    where
      go :
          (p : Option (Payload M))
          → length (frame commands metadatas crc (record { command = m.command; payload = p }))
            ≡ total_size commands metadatas (record { command = m.command; payload = p }) + 4
      go none =
          omega
            (arith, length-append {0}, length-put_u32, is_commands.encoded_len-eq-length m.command)
      go (some p) = omega (
        arith,
        length-append {0},
        length-put_u32,
        length-payload p,
        is_commands.encoded_len-eq-length m.command,
      )

  -- A payload frame with any checksum in it.
  pub decode_payload-stored :
      (p : Payload M) (stored : ℕ)
      → stored < u32_mod
      → length (payload_bytes commands metadatas crc (some p)) < u32_mod
      → decode_payload commands metadatas crc
          (put_u16 0x0e01 ++ (put_u32 stored ++ body commands metadatas crc p))
        ≡ (if stored == crc (body commands metadatas crc p)
            then ok (some p)
            else err checksum_mismatch)
  unfolding decode_payload
  decode_payload-stored p stored hs h =
      let e = is_metadatas.encoded_len-eq-length p.metadata in
      let md = metadatas.encode p.metadata in
      rw (is_empty-put_u16 0x0e01 (put_u32 stored ++ body commands metadatas crc p), e)
        (rw (
          payload_frame-put stored md p.payload_data hs (omega (arith, length-payload p)),
          is_metadatas.decode-encode p.metadata,
          append_assoc (put_u32 (length md)) md p.payload_data,
        ))

  decode_payload-payload_bytes :
      (p : Option (Payload M))
      → length (payload_bytes commands metadatas crc p) < u32_mod
      → decode_payload commands metadatas crc (payload_bytes commands metadatas crc p) ≡ ok p
  decode_payload-payload_bytes none h = unfold decode_payload in refl
  decode_payload-payload_bytes (some p) h =
      decode_payload-stored p (crc (body commands metadatas crc p)) (crc_u32 _) h
      ∙ rw ((==_iff (crc (body commands metadatas crc p)) _).1 refl)

  decode_frame-frame :
      (m : Message C M)
      → total_size commands metadatas m < u32_mod
      → decode_frame commands metadatas crc (frame commands metadatas crc m) ≡ ok m
  unfolding decode_frame
  decode_frame-frame m h =
      let e = is_commands.encoded_len-eq-length m.command in
      rw e (
        rw (
          command_frame-put (total_size commands metadatas m) (commands.encode m.command)
              (payload_bytes commands metadatas crc m.payload) h
              (omega (arith, length-frame m, length-append {0}, length-put_u32)),
          is_commands.decode-encode m.command,
          decode_payload-payload_bytes m.payload
              (omega (arith, length-frame m, length-append {0}, length-put_u32)),
        ))

  pub get_u32-frame :
      (m : Message C M) (rest : Bytes)
      → total_size commands metadatas m < u32_mod
      → get_u32 (frame commands metadatas crc m ++ rest) ≡ total_size commands metadatas m
  unfolding get_u32 be_u32 put_u32
  get_u32-frame m rest h = omega arith

  -- For a message whose size fits 32 bits: encoding it and decoding the bytes, whatever follows
  -- them in the buffer, gives the message back and leaves exactly what follows.
  pub decode-encode :
      (m : Message C M) (rest : Bytes)
      → total_size commands metadatas m < u32_mod
      → decode commands metadatas crc (encode commands metadatas crc m [] ++ rest)
        ≡ (ok (some m), rest)
  decode-encode m rest h =
      let f = frame commands metadatas crc m in
      rw (encode-frame commands metadatas crc m []) (
        decode_ready commands metadatas crc f rest (total_size commands metadatas m)
          (get_u32-frame m rest h) (length-frame m)
        ∙ rw (decode_frame-frame m h, ← length-frame m, drop-append f rest))
