-- ===== src/Codec/Buffer.antt =====
-- What `Codec::decode` does with its buffer: waiting for whole frames, and refusing damaged ones.
use mathlib.Core.List.{append-nil}
use pulsar_rdg_rs.Prelude.{
  ℕ, ◌+◌, ◌≤◌, ◌<◌, ◌≡◌, ◌≢◌, ◌⊎◌, inl, inr, refl, sym, ap, ◌∙◌, Option, none, some, [], ◌∷◌, ◌++◌,
  length, take, arith, Result, ok, err, length-append, leb, le→leb, ◌&&◌, ==_false, Bool-cases,
  take-append-drop,
}
use pulsar_rdg_rs.Bytes.{Bytes, put_u32, put_u16, be_u32, length-put_u32, u32_mod}
use pulsar_rdg_rs.Codec.Frames.{command_frame-put}
use pulsar_rdg_rs.Codec.{
  Protobuf, IsProtobuf, Payload, Message, encode, total_size, decode, decode_frame, advance,
  get_u32, DecodingError, checksum_mismatch,
}
use pulsar_rdg_rs.Codec.RoundTrip.{
  frame, body, encode-frame, length-frame, get_u32-frame, decode_payload-stored, decode_ready,
}

-- The buffer begins with a whole frame.
abbrev pub IsWhole : Bytes → Type 0
IsWhole src = (4 ≤ length src) × (get_u32 src + 4 ≤ length src)

IsWhole-cases : (src : Bytes) → IsWhole src ⊎ ¬ IsWhole src
IsWhole-cases src = elim (Bool-cases (leb 4 (length src) && leb (get_u32 src + 4) (length src))) [
  | inl e ↦ inl (ground arith)
  | inr e ↦ inr (λ w. ground arith)
]

get_u32-append : (xs ys : Bytes) → 4 ≤ length xs → get_u32 (xs ++ ys) ≡ get_u32 xs
unfolding get_u32 be_u32
get_u32-append [] ys h = absurd (omega arith)
get_u32-append (a ∷ []) ys h = absurd (omega arith)
get_u32-append (a ∷ b ∷ []) ys h = absurd (omega arith)
get_u32-append (a ∷ b ∷ c ∷ []) ys h = absurd (omega arith)
get_u32-append (a ∷ b ∷ c ∷ d ∷ xs) ys h = refl

module _ {C M : Type 0} (commands : Protobuf C) (metadatas : Protobuf M) (crc : Bytes → ℕ) where
  decode_whole :
      (src : Bytes)
      → IsWhole src
      → decode commands metadatas crc src
        ≡ advance src
            (get_u32 src + 4)
            (decode_frame commands metadatas crc (take (get_u32 src + 4) src))
  unfolding decode
  decode_whole src w = rw (le→leb 4 (length src) w.0, le→leb (get_u32 src + 4) (length src) w.1)

  decode_waits : (src : Bytes) → ¬ IsWhole src → decode commands metadatas crc src ≡ (ok none, src)
  unfolding decode
  decode_waits src w = ground arith

  abbrev pub Outcome : Bytes → Result DecodingError (Option (Message C M)) × Bytes → Type 0
  Outcome src (ok none, rest) = (rest ≡ src) × ¬ IsWhole src
  Outcome src (ok (some m), rest) =
      IsWhole src
      × (src ≡ take (get_u32 src + 4) src ++ rest)
      × (decode_frame commands metadatas crc (take (get_u32 src + 4) src) ≡ ok m)
  Outcome src (err e, rest) = (rest ≡ src) × IsWhole src

  advance-Outcome :
      (src : Bytes) (r : Result DecodingError (Message C M))
      → IsWhole src
      → decode_frame commands metadatas crc (take (get_u32 src + 4) src) ≡ r
      → Outcome src (advance src (get_u32 src + 4) r)
  advance-Outcome src (ok m) w e = (w, sym (take-append-drop (get_u32 src + 4) src), e)
  advance-Outcome src (err x) w e = (refl, w)

  -- Whatever the buffer holds: an answer of no message leaves the buffer alone and means that
  -- it holds no whole frame; a message is the decoding of the first whole frame, and that frame
  -- alone leaves the buffer; an error leaves a whole frame where it was.
  pub decode-Outcome : (src : Bytes) → Outcome src (decode commands metadatas crc src)
  decode-Outcome src = elim (IsWhole-cases src) [
    | inl w ↦ rw (decode_whole src w) (advance-Outcome src _ w refl)
    | inr w ↦ rw (decode_waits src w) (refl, w)
  ]

module _ {C M : Type 0} (commands : Protobuf C) (metadatas : Protobuf M) (crc : Bytes → ℕ)
    (is_commands : IsProtobuf commands) (is_metadatas : IsProtobuf metadatas)
    (crc_u32 : (b : Bytes) → crc b < u32_mod) where
  -- Any part of an encoded message, one whose size fits 32 bits, that lacks its end decodes to no
  -- message and stays in the buffer, so that a message that arrives in pieces is not lost.
  pub decode-prefix :
      (m : Message C M) (xs ys : Bytes)
      → total_size commands metadatas m < u32_mod
      → xs ++ ys ≡ encode commands metadatas crc m []
      → ys ≢ []
      → decode commands metadatas crc xs ≡ (ok none, xs)
  decode-prefix m xs ys h e ne = decode_waits commands metadatas crc xs (λ w. cut ys ne e w)
    where
      cut : (ys : Bytes) → ys ≢ [] → xs ++ ys ≡ encode commands metadatas crc m [] → ¬ IsWhole xs
      cut [] ne e w = absurd (ne refl)
      cut (y ∷ ys) ne e w = omega (
        arith,
        get_u32-append xs (y ∷ ys) w.0,
        ap get_u32 (e ∙ encode-frame commands metadatas crc m []),
        ap length (e ∙ encode-frame commands metadatas crc m []),
        ap get_u32 (append-nil (frame commands metadatas crc m)),
        get_u32-frame commands metadatas crc is_commands is_metadatas crc_u32 m [] h,
        length-frame commands metadatas crc is_commands is_metadatas crc_u32 m,
        length-append {0} xs (y ∷ ys),
      )

  decode_frame-stored :
      (c : C) (p : Payload M) (stored : ℕ)
      → stored < u32_mod
      → total_size commands metadatas (record { command = c; payload = some p }) < u32_mod
      → stored ≢ crc (body commands metadatas crc p)
      → decode_frame commands metadatas crc
          (frame commands metadatas (λ _. stored) (record { command = c; payload = some p }))
        ≡ err checksum_mismatch
  unfolding decode_frame
  decode_frame-stored c p stored hs h ne =
      let e = is_commands.encoded_len-eq-length c in
      let l =
        length-frame commands metadatas (λ _. stored) is_commands is_metadatas (λ _. hs)
          (record { command = c; payload = some p }) in
      rw e (
        rw (
          command_frame-put
              (total_size commands metadatas (record { command = c; payload = some p }))
              (commands.encode c)
              (put_u16 0x0e01 ++ (put_u32 stored ++ body commands metadatas crc p)) h
              (omega (arith, l, length-append {0}, length-put_u32)),
          is_commands.decode-encode c,
          decode_payload-stored commands metadatas crc is_commands is_metadatas crc_u32 p stored hs
              (omega (arith, l, length-append {0}, length-put_u32)),
          ==_false stored (crc (body commands metadatas crc p)) ne,
        ))

  -- A payload frame, one whose size fits 32 bits, whose checksum field is not the checksum of what
  -- follows it is refused, and stays in the buffer.
  pub decode-checksum_mismatch :
      (c : C) (p : Payload M) (stored : ℕ) (rest : Bytes)
      → stored < u32_mod
      → total_size commands metadatas (record { command = c; payload = some p }) < u32_mod
      → stored ≢ crc (body commands metadatas crc p)
      → let src =
          (put_u32 (total_size commands metadatas (record { command = c; payload = some p }))
            ++ (put_u32 (commands.encoded_len c)
                ++ (commands.encode c
                    ++ (put_u16 0x0e01 ++ (put_u32 stored ++ body commands metadatas crc p)))))
          ++ rest in
        decode commands metadatas crc src ≡ (err checksum_mismatch, src)
  decode-checksum_mismatch c p stored rest hs h ne =
      decode_ready commands metadatas crc f rest (total_size commands metadatas m)
        (get_u32-frame commands metadatas (λ _. stored) is_commands is_metadatas (λ _. hs) m rest h)
        long
      ∙ rw (decode_frame-stored c p stored hs h ne)
    where
      m : Message C M
      m = record { command = c; payload = some p }

      f : Bytes
      f = frame commands metadatas (λ _. stored) m

      long : length f ≡ total_size commands metadatas m + 4
      long = length-frame commands metadatas (λ _. stored) is_commands is_metadatas (λ _. hs) m
