-- ===== src/Tests/Compressions.antt =====
-- src/producer.rs and src/consumer/engine.rs: a message that is compressed, sent and read.
use pulsar_rdg_rs.Prelude.{◌≡◌, refl, ap, some, [], ◌∷◌, ok, drop, arith}
use pulsar_rdg_rs.Producer.Message.{ProducerMessage, default_message}
use pulsar_rdg_rs.Producer.Sending.{message_payload}
use pulsar_rdg_rs.Producer.Compressing.{Compressor, zstd, with_payload, compress_message}
use pulsar_rdg_rs.Prelude.Int.{pos}
use pulsar_rdg_rs.Consumer.Engine.{World}
use pulsar_rdg_rs.Consumer.Deliver.{payloads}
use pulsar_rdg_rs.Consumer.Compressed.{IsDecompressor, read_back, payloads-compress_message}
use pulsar_rdg_rs.Tests.Batches.{id}
use pulsar_rdg_rs.Tests.Engines.{outside}

-- A compressor that marks what it was given with a first byte.
abbrev mark : Compressor
mark compression bytes = ok (7 ∷ bytes)

abbrev unmarking : World
unmarking = record outside { decompress = λ t metadata z. ok (drop 1 z) }

unmarking-IsDecompressor : IsDecompressor mark unmarking
unmarking-IsDecompressor = record {
  inverse = λ c t bytes z metadata a e size.
      let same : z ≡ 7 ∷ bytes = cc in ap (λ z. ok (drop 1 z)) same;
}

abbrev message : ProducerMessage
message = record default_message { payload = 1 ∷ 2 ∷ 3 ∷ [] }

abbrev sent : ProducerMessage
sent = with_payload message 3 (7 ∷ 1 ∷ 2 ∷ 3 ∷ [])

payloads-compress_message_example :
    payloads unmarking id (message_payload (112 ∷ []) 5 1000 sent)
    ≡ ok ((id, read_back (112 ∷ []) 5 1000 message sent) ∷ [])
unfolding compress_message
payloads-compress_message_example =
    payloads-compress_message mark unmarking unmarking-IsDecompressor id (112 ∷ []) 5 1000 message
      sent (some (zstd (pos 3))) refl refl (omega arith) refl
