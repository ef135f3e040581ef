-- ===== src/Consumer/Ids.antt =====
-- src/message.rs: equality of message ids, which key the map of unacknowledged messages.
use pulsar_rdg_rs.Prelude.{◌≡◌, ◌↔◌, Bool, true, ◌&&◌, ◌==◌, arith}
use pulsar_rdg_rs.Prelude.Maps.{Eq}
use pulsar_rdg_rs.Prelude.Equals.{int_eq, option_eq, list_eq}
use pulsar_rdg_rs.Proto.{MessageIdData}

abbrev id_beq : MessageIdData → MessageIdData → Bool
id_beq a b =
    (a.ledger_id == b.ledger_id)
    && ((a.entry_id == b.entry_id)
        && ((option_eq int_eq).beq a.partition b.partition
            && ((option_eq int_eq).beq a.batch_index b.batch_index
                && ((list_eq int_eq).beq a.ack_set b.ack_set
                    && (option_eq int_eq).beq a.batch_size b.batch_size))))

pub id_beq_iff : (a b : MessageIdData) → (id_beq a b ≡ true) ↔ (a ≡ b)
id_beq_iff a b = ground (
  arith,
  (option_eq int_eq).beq_iff a.partition b.partition,
  (option_eq int_eq).beq_iff a.batch_index b.batch_index,
  (list_eq int_eq).beq_iff a.ack_set b.ack_set,
  (option_eq int_eq).beq_iff a.batch_size b.batch_size,
)

instance abbrev pub id_eq : Eq MessageIdData
id_eq = record { beq = id_beq; beq_iff = id_beq_iff }
