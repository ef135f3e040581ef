-- ===== src/Producer/Batching.antt =====
-- src/producer.rs: `BatchStorage` and `batch_process_loop`.
-- The loop waits for the next item or for its timer. Each is an event here, and `step` is one
-- turn of the loop: the state after it, `none` once the loop has ended, and what it sent. Batches
-- go to `message_send_loop` over a channel that is taken to be open.
use pulsar_rdg_rs.Prelude.{
  ℕ, ◌+◌, ◌-◌, ◌^◌, Bool, true, false, Option, none, some, List, [], ◌∷◌, ◌++◌, length, leb, ◌==◌,
  ◌&&◌, ◌||◌, if◌then◌else◌,
}
use pulsar_rdg_rs.Prelude.Int.{ℤ, pos, negsuc}
use pulsar_rdg_rs.Batch.{BatchedMessage}

-- A oneshot sender is named by a number.
abbrev pub Sender : Type 0
Sender = ℕ

pub data BatchItem : Type 0 where
  single_message : Sender → BatchedMessage → BatchItem
  flush : Sender → BatchItem

pub record BatchStorage : Type 0 where
  pub max_size : Option ℕ
  pub max_byte_size : Option ℕ
  pub timeout : Option ℕ
  pub size : ℕ
  pub storage : List BatchItem

-- `as usize` of an `i32`
abbrev pub as_usize : ℤ → ℕ
as_usize (pos n) = n
as_usize (negsuc n) = 2 ^ 64 - 1 - n

abbrev pub item_size : BatchItem → ℕ
item_size (single_message tx m) = as_usize m.metadata.payload_size
item_size (flush tx) = 0

unfoldable pub push_back : BatchStorage → BatchItem → BatchStorage
push_back s item = record s { size = s.size + item_size item; storage = s.storage ++ item ∷ [] }

unfoldable pub get_messages : BatchStorage → List BatchItem × BatchStorage
get_messages s = (s.storage, record s { size = 0; storage = [] })

-- matches!(self.storage.back(), Some(BatchItem::Flush(_)))
abbrev pub ends_in_flush : List BatchItem → Bool
ends_in_flush [] = false
ends_in_flush (single_message tx m ∷ []) = false
ends_in_flush (flush tx ∷ []) = true
ends_in_flush (x ∷ y ∷ xs) = ends_in_flush (y ∷ xs)

abbrev pub reaches : Option ℕ → ℕ → Bool
reaches none n = false
reaches (some limit) n = leb limit n

unfoldable pub ready_to_flush : BatchStorage → Bool
ready_to_flush s =
    reaches s.max_size (length s.storage)
    || (reaches s.max_byte_size s.size || ends_in_flush s.storage)

-- `timer` says whether the timer's future is a delay, and not `pending()`.
pub record Loop : Type 0 where
  pub batch_storage : BatchStorage
  pub timer : Bool

pub data Event : Type 0 where
  received : BatchItem → Event
  closed : Event
  timer_fired : Event

pub data Output : Type 0 where
  batch : List BatchItem → Output
  closed_error : Sender → Output

-- The closure `flush` of the loop.
unfoldable pub flush_batch : List BatchItem → List Output
flush_batch [] = []
flush_batch (x ∷ xs) = batch (x ∷ xs) ∷ []

unfoldable pub closed_errors : List BatchItem → List Output
closed_errors [] = []
closed_errors (single_message tx m ∷ xs) = closed_error tx ∷ closed_errors xs
closed_errors (flush tx ∷ xs) = closed_errors xs

abbrev pub is_some {ℓ} : {A : Type ℓ} → Option A → Bool
is_some none = false
is_some (some a) = true

unfoldable pub on_item : Loop → BatchItem → Loop × List Output
on_item l item =
    let s = push_back l.batch_storage item in
    if ready_to_flush s
    then (
      record { batch_storage = (get_messages s).1; timer = false },
      flush_batch (get_messages s).0,
    )
    else (
      record {
        batch_storage = s;
        timer = (if is_some s.timeout && length s.storage == 1 then true else l.timer);
      },
      [],
    )

unfoldable pub on_timer : Loop → Loop × List Output
on_timer l =
    if is_some l.batch_storage.timeout
    then (
      record { batch_storage = (get_messages l.batch_storage).1; timer = false },
      flush_batch (get_messages l.batch_storage).0,
    )
    else (record l { timer = false }, [])

unfoldable pub step : Loop → Event → Option Loop × List Output
step l (received item) = (some (on_item l item).0, (on_item l item).1)
step l closed = (none, closed_errors l.batch_storage.storage)
step l timer_fired = (some (on_timer l).0, (on_timer l).1)

-- The events of a run; those after the loop's end are not looked at.
unfoldable pub run : Option Loop → List Event → Option Loop × List Output
run l [] = (l, [])
run none (e ∷ es) = (none, [])
run (some l) (e ∷ es) = let rest = run (step l e).0 es in (rest.0, (step l e).1 ++ rest.1)

-- The state that `batch_process_loop` starts in, on a storage as `TopicProducer::new` makes it.
abbrev pub start : Option ℕ → Option ℕ → Option ℕ → Loop
start max_size max_byte_size timeout = record {
  batch_storage = record {
    max_size = max_size;
    max_byte_size = max_byte_size;
    timeout = timeout;
    size = 0;
    storage = [];
  };
  timer = false;
}
