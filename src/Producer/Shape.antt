-- ===== src/Producer/Shape.antt =====
-- The states that `batch_process_loop` passes through, and the batches that it sends.
use pulsar_rdg_rs.Prelude.{
  ℕ, ◌<◌, ◌≡◌, ◌≢◌, refl, ap, sym, inl, inr, Bool, true, false, Option, none, some, List, [], ◌∷◌,
  ◌++◌, length, arith, ◌==◌, ◌&&◌, if◌then◌else◌, length-append, Bool-cases,
}
use mathlib.Core.List.{append-nil}
use pulsar_rdg_rs.Producer.Flushing.{run-none}
use pulsar_rdg_rs.Producer.Batching.{
  BatchItem, single_message, flush, BatchStorage, push_back, get_messages, ready_to_flush, Loop,
  Event, received, closed, timer_fired, Output, batch, closed_error, flush_batch, closed_errors,
  is_some, on_item, on_timer, step, run, start,
}
use pulsar_rdg_rs.Producer.Contents.{
  AllSingle, non_empty, IsBatching, FlushesLast, IsBatch, AllBatches, total_size-append,
  AllSingle-append, FlushesLast-append, FlushesLast-AllSingle, below_limit, not-ends_in_flush,
}

-- A storage that is not ready has room for one more item.
room :
    (l : Loop) (n : ℕ)
    → IsBatching l
    → l.batch_storage.max_size ≡ some n
    → 0 < n
    → length l.batch_storage.storage < n
room l n v e h = go l.batch_storage.storage refl
  where
    go : (xs : List BatchItem) → l.batch_storage.storage ≡ xs → length xs < n
    go [] q = h
    go (x ∷ xs) q =
        omega (arith, ap length q, below_limit l.batch_storage n (v.waiting (ap non_empty q)) e)

-- The storage after an item that did not fill it.
pushed : Loop → BatchItem → Loop
pushed l x =
    let s = push_back l.batch_storage x in
    record {
      batch_storage = s;
      timer = (if is_some s.timeout && length s.storage == 1 then true else l.timer);
    }

timer-pushed :
    (xs : List BatchItem) (x : BatchItem) (timed timer : Bool)
    → timer ≡ (timed && non_empty xs)
    → (if timed && length (xs ++ x ∷ []) == 1 then true else timer)
      ≡ (timed && non_empty (xs ++ x ∷ []))
timer-pushed [] x timed timer e = ground arith
timer-pushed (y ∷ []) x timed timer e = ground arith
timer-pushed (y ∷ z ∷ ys) x timed timer e = ground arith

pushed-IsBatching :
    (l : Loop) (x : BatchItem)
    → IsBatching l
    → ready_to_flush (push_back l.batch_storage x) ≡ false
    → IsBatching (pushed l x)
unfolding pushed push_back
pushed-IsBatching l x v e = record {
  sized = omega (arith, v.sized, total_size-append l.batch_storage.storage (x ∷ []));
  waiting = λ _. e;
  singles =
      AllSingle-append l.batch_storage.storage x v.singles
        (not-ends_in_flush (push_back l.batch_storage x) e);
  armed = timer-pushed l.batch_storage.storage x (is_some l.batch_storage.timeout) l.timer v.armed;
}

-- With nothing stored and no timer.
emptied-IsBatching :
    (s : BatchStorage) → IsBatching (record { batch_storage = (get_messages s).1; timer = false })
unfolding get_messages
emptied-IsBatching s = record {
  sized = refl;
  waiting = λ e. cc;
  singles = tt;
  armed = ground arith;
}

on_item-IsBatching : (l : Loop) (x : BatchItem) → IsBatching l → IsBatching (on_item l x).0
unfolding on_item
on_item-IsBatching l x v = elim (Bool-cases (ready_to_flush (push_back l.batch_storage x))) [
  | inl e ↦ rw e (emptied-IsBatching (push_back l.batch_storage x))
  | inr e ↦ rw e (unfold pushed in pushed-IsBatching l x v e)
]

on_timer-IsBatching : (l : Loop) → IsBatching l → IsBatching (on_timer l).0
unfolding on_timer
on_timer-IsBatching l v = elim (Bool-cases (is_some l.batch_storage.timeout)) [
  | inl e ↦ rw e (emptied-IsBatching l.batch_storage)
  | inr e ↦ rw e (record {
    sized = v.sized;
    waiting = v.waiting;
    singles = v.singles;
    armed = sym (ap (λ b. b && non_empty l.batch_storage.storage) e);
  })
]

flush_batch-AllBatches :
    (max_size : Option ℕ) (xs : List BatchItem)
    → (xs ≢ [] → IsBatch max_size xs)
    → AllBatches max_size (flush_batch xs)
unfolding flush_batch
flush_batch-AllBatches max_size [] h = tt
flush_batch-AllBatches max_size (x ∷ xs) h = (h (λ e. cc), tt)

on_item-AllBatches :
    (l : Loop) (x : BatchItem) → IsBatching l → AllBatches l.batch_storage.max_size (on_item l x).1
unfolding on_item push_back get_messages
on_item-AllBatches l x v = elim (Bool-cases (ready_to_flush (push_back l.batch_storage x))) [
  | inl e ↦ rw e (
      flush_batch-AllBatches l.batch_storage.max_size (l.batch_storage.storage ++ x ∷ []) (λ _. (
        FlushesLast-append l.batch_storage.storage x v.singles,
        λ n q h. omega (arith, room l n v q h, length-append l.batch_storage.storage (x ∷ [])),
      )))
  | inr e ↦ rw e tt
]

on_timer-AllBatches : (l : Loop) → IsBatching l → AllBatches l.batch_storage.max_size (on_timer l).1
unfolding on_timer get_messages
on_timer-AllBatches l v = elim (Bool-cases (is_some l.batch_storage.timeout)) [
  | inl e ↦ rw e (
      flush_batch-AllBatches l.batch_storage.max_size l.batch_storage.storage
        (λ ne. (kept l.batch_storage.storage ne v.singles, λ n q h. omega (arith, room l n v q h))))
  | inr e ↦ rw e tt
]
  where
    kept : (xs : List BatchItem) → xs ≢ [] → AllSingle xs → FlushesLast xs
    kept [] ne h = absurd (ne refl)
    kept (x ∷ xs) ne h = FlushesLast-AllSingle x xs h

AllBatches-append :
    (max_size : Option ℕ) (xs ys : List Output)
    → AllBatches max_size xs
    → AllBatches max_size ys
    → AllBatches max_size (xs ++ ys)
AllBatches-append max_size [] ys h k = k
AllBatches-append max_size (batch zs ∷ xs) ys h k = (h.0, AllBatches-append max_size xs ys h.1 k)
AllBatches-append max_size (closed_error tx ∷ xs) ys h k = AllBatches-append max_size xs ys h k

AllBatches-closed_errors :
    (max_size : Option ℕ) (xs : List BatchItem) → AllBatches max_size (closed_errors xs)
unfolding closed_errors
AllBatches-closed_errors max_size [] = tt
AllBatches-closed_errors max_size (single_message tx m ∷ xs) = AllBatches-closed_errors max_size xs
AllBatches-closed_errors max_size (flush tx ∷ xs) = AllBatches-closed_errors max_size xs

max_size-on_item :
    (l : Loop) (x : BatchItem) → (on_item l x).0.batch_storage.max_size ≡ l.batch_storage.max_size
unfolding on_item push_back get_messages
max_size-on_item l x = elim (Bool-cases (ready_to_flush (push_back l.batch_storage x))) [
  | inl e ↦ rw e
  | inr e ↦ rw e
]

max_size-on_timer : (l : Loop) → (on_timer l).0.batch_storage.max_size ≡ l.batch_storage.max_size
unfolding on_timer get_messages
max_size-on_timer l = elim (Bool-cases (is_some l.batch_storage.timeout)) [
  | inl e ↦ rw e
  | inr e ↦ rw e
]

abbrev pub StillBatching : Option Loop → Type 0
StillBatching none = Unit
StillBatching (some l) = IsBatching l

-- Whatever arrives and whenever the timer fires, from a state with these properties the loop
-- stays in such states until it ends, and every batch that it sends is not empty, has a flush
-- request at its end at most, and holds no more messages than the configured maximum, if that
-- is not 0.
pub run-AllBatches :
    (l : Loop) (es : List Event)
    → IsBatching l
    → AllBatches l.batch_storage.max_size (run (some l) es).1 × StillBatching (run (some l) es).0
unfolding run step
run-AllBatches l [] v = (tt, v)
run-AllBatches l (received x ∷ es) v =
    let (bs, s) = run-AllBatches (on_item l x).0 es (on_item-IsBatching l x v) in
    (
      AllBatches-append l.batch_storage.max_size (on_item l x).1 _ (on_item-AllBatches l x v)
          (rw (max_size-on_item l x) at bs),
      s,
    )
run-AllBatches l (closed ∷ es) v =
    rw (run-none es, append-nil (closed_errors l.batch_storage.storage))
      (AllBatches-closed_errors l.batch_storage.max_size l.batch_storage.storage, tt)
run-AllBatches l (timer_fired ∷ es) v =
    let (bs, s) = run-AllBatches (on_timer l).0 es (on_timer-IsBatching l v) in
    (
      AllBatches-append l.batch_storage.max_size (on_timer l).1 _ (on_timer-AllBatches l v)
          (rw (max_size-on_timer l) at bs),
      s,
    )

pub start-IsBatching :
    (max_size max_byte_size timeout : Option ℕ) → IsBatching (start max_size max_byte_size timeout)
start-IsBatching max_size max_byte_size timeout = record {
  sized = refl;
  waiting = λ e. cc;
  singles = tt;
  armed = ground arith;
}
