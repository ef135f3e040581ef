-- ===== src/Connection/Access.antt =====
-- What a wait for exclusive access is answered, by way of the receiver.
use pulsar_rdg_rs.Connection.Keys.{request_key_eq}
use pulsar_rdg_rs.Connection.Sender
