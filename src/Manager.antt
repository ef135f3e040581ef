-- ===== src/Manager.antt =====
-- src/connection_manager.rs: the table of connections to brokers that the tasks of a client share.
-- A connection, a sender of a waiting task and an instant are numbers; whether a connection is
-- valid and how many tasks hold it are functions of it. Each function here is what one task does
-- under the table's lock, or between two such blocks.
pub mod Steps
pub mod Waiting
pub mod Dialers
pub mod Dialing
pub mod Backoff
pub mod Cleanup
pub mod Stuck
use pulsar_rdg_rs.Prelude.{
  ℕ, ◌+◌, ◌-◌, ◌≡◌, ◌↔◌, refl, Bool, true, false, Option, none, some, List, [], ◌∷◌, ◌++◌, map,
  Result, ok, err, ◌&&◌, ◌||◌, ltb, arith, if◌then◌else◌,
}
use pulsar_rdg_rs.Prelude.Maps.{Eq}
use pulsar_rdg_rs.Prelude.Equals.{text_eq}
use pulsar_rdg_rs.Bytes.{Text}
use pulsar_rdg_rs.Errors.{ConnectionError, canceled, shutdown}

pub record BrokerAddress : Type 0 where
  pub url : Text
  pub broker_url : Text
  pub proxy : Bool

abbrev same : Bool → Bool → Bool
same true b = b
same false true = false
same false false = true

abbrev address_beq : BrokerAddress → BrokerAddress → Bool
address_beq a b =
    text_eq.beq a.url b.url && text_eq.beq a.broker_url b.broker_url && same a.proxy b.proxy

same_iff : (a b : Bool) → (same a b ≡ true) ↔ (a ≡ b)
same_iff true true = ground arith
same_iff true false = ground arith
same_iff false true = ground arith
same_iff false false = ground arith

pub address_beq_iff : (a b : BrokerAddress) → (address_beq a b ≡ true) ↔ (a ≡ b)
address_beq_iff a b = grind (
  arith,
  text_eq.beq_iff a.url b.url,
  text_eq.beq_iff a.broker_url b.broker_url,
  same_iff a.proxy b.proxy,
)

instance abbrev pub address_eq : Eq BrokerAddress
address_eq = record { beq = address_beq; beq_iff = address_beq_iff }

pub record ConnectionRetryOptions : Type 0 where
  pub min_backoff : ℕ
  pub max_backoff : ℕ
  pub max_retries : ℕ
  pub connection_max_idle : ℕ

-- Connected { conn, last_used }, and Connecting with the senders of the tasks that wait.
pub data ConnectionStatus : Type 0 where
  connected : (conn last_used : ℕ) → ConnectionStatus
  connecting : List ℕ → ConnectionStatus

abbrev pub Entry : Type 0
Entry = Option ConnectionStatus

abbrev pub Answers : Type 0
Answers = List (ℕ × Result ConnectionError ℕ)

-- What a task does next: it returns a connection, waits on the sender's other end, or connects.
pub data Lookup : Type 0 where
  returned : (conn : ℕ) → Lookup
  waits : (tx : ℕ) → Lookup
  connects : Lookup

-- The block of get_connection under the lock, on the broker's entry, for a task that would wait on
-- the other end of `tx`.
unfoldable pub get_connection : (ℕ → Bool) → ℕ → ℕ → Entry → Entry × Lookup
get_connection is_valid now tx none = (none, connects)
get_connection is_valid now tx (some (connected conn last_used)) =
    if is_valid conn
    then (some (connected conn now), returned conn)
    else (some (connected conn last_used), connects)
get_connection is_valid now tx (some (connecting v)) =
    (some (connecting (v ++ (tx ∷ []))), waits tx)

-- The block of connect_inner under the lock.
unfoldable pub connect_inner : ℕ → Entry → Entry × Lookup
connect_inner tx none = (some (connecting []), connects)
connect_inner tx (some (connecting [])) = (some (connecting []), connects)
connect_inner tx (some (connecting (x ∷ v))) = (some (connecting ((x ∷ v) ++ (tx ∷ []))), waits tx)
connect_inner tx (some (connected conn last_used)) = (some (connected conn last_used), connects)

-- The senders that a removed or replaced entry leaves to be answered.
unfoldable pub drain : Entry → List ℕ
drain (some (connecting v)) = v
drain (some (connected conn last_used)) = []
drain none = []

-- The rest of connect, after connect_inner gave `res`: the entry, the answers to the tasks that
-- waited, and the task's own result. `spawned` is whether the executor took the keep-alive task.
unfoldable pub connect :
    Result ConnectionError ℕ → Bool → ℕ → Entry → Entry × Answers × Result ConnectionError ℕ
unfolding drain
connect (err e) spawned now entry = (none, map (λ tx. (tx, err canceled)) (drain entry), err e)
connect (ok conn) false now entry = (entry, [], err shutdown)
connect (ok conn) true now entry =
    (some (connected conn now), map (λ tx. (tx, ok conn)) (drain entry), ok conn)

-- The test of check_connections on one entry, which it keeps or drops.
unfoldable pub should_retain :
    (ℕ → Bool) → (ℕ → ℕ) → ConnectionRetryOptions → ℕ → ConnectionStatus → Bool
should_retain is_valid strong_count options now (connecting v) = true
should_retain is_valid strong_count options now (connected conn last_used) =
    is_valid conn
    && (ltb 1 (strong_count conn) || ltb (now - last_used) options.connection_max_idle)

unfoldable pub retain : (ℕ → Bool) → (ℕ → ℕ) → ConnectionRetryOptions → ℕ → Entry → Entry
unfolding should_retain
retain is_valid strong_count options now none = none
retain is_valid strong_count options now (some status) =
    if should_retain is_valid strong_count options now status then some status else none
