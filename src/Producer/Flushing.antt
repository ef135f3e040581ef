-- ===== src/Producer/Flushing.antt =====
-- What `batch_process_loop` keeps and sends.
use mathlib.Core.List.{append_assoc, append-nil}
use pulsar_rdg_rs.Prelude.{
  ◌≡◌, refl, ap, sym, ◌∙◌, inl, inr, Option, none, some, List, [], ◌∷◌, ◌++◌, Bool-cases,
}
use pulsar_rdg_rs.Producer.Batching.{
  BatchItem, single_message, flush, push_back, get_messages, ready_to_flush, Loop, Event, received,
  closed, timer_fired, Output, batch, closed_error, flush_batch, closed_errors, is_some, on_item,
  on_timer, step, run,
}

-- The items of the batches that were sent on, in order.
abbrev pub sent : List Output → List BatchItem
sent [] = []
sent (batch xs ∷ os) = xs ++ sent os
sent (closed_error tx ∷ os) = sent os

-- The items that came in before the channel was closed.
abbrev pub items : List Event → List BatchItem
items [] = []
items (received x ∷ es) = x ∷ items es
items (closed ∷ es) = []
items (timer_fired ∷ es) = items es

-- What is left at the end of a run: in the storage, or answered with an error.
abbrev pub Left : Option Loop → List Output → List BatchItem → Type 0
Left (some l) outs rest = rest ≡ l.batch_storage.storage
Left none outs rest = (before : List Output) × (outs ≡ before ++ closed_errors rest)

sent-append : (xs ys : List Output) → sent (xs ++ ys) ≡ sent xs ++ sent ys
sent-append [] ys = refl
sent-append (batch zs ∷ xs) ys = rw (sent-append xs ys) (sym (append_assoc zs (sent xs) (sent ys)))
sent-append (closed_error tx ∷ xs) ys = sent-append xs ys

sent-closed_errors : (xs : List BatchItem) → sent (closed_errors xs) ≡ []
unfolding closed_errors
sent-closed_errors [] = refl
sent-closed_errors (single_message tx m ∷ xs) = sent-closed_errors xs
sent-closed_errors (flush tx ∷ xs) = sent-closed_errors xs

sent-flush_batch : (xs : List BatchItem) → sent (flush_batch xs) ≡ xs
unfolding flush_batch
sent-flush_batch [] = refl
sent-flush_batch (x ∷ xs) = append-nil (x ∷ xs)

sent-on_item :
    (l : Loop) (x : BatchItem)
    → sent (on_item l x).1 ++ (on_item l x).0.batch_storage.storage
      ≡ l.batch_storage.storage ++ x ∷ []
unfolding on_item push_back get_messages
sent-on_item l x = elim (Bool-cases (ready_to_flush (push_back l.batch_storage x))) [
  | inl e ↦ rw (e, sent-flush_batch (l.batch_storage.storage ++ x ∷ [])) (append-nil _)
  | inr e ↦ rw e
]

sent-on_timer :
    (l : Loop)
    → sent (on_timer l).1 ++ (on_timer l).0.batch_storage.storage ≡ l.batch_storage.storage
unfolding on_timer get_messages
sent-on_timer l = elim (Bool-cases (is_some l.batch_storage.timeout)) [
  | inl e ↦ rw (e, sent-flush_batch l.batch_storage.storage) (append-nil _)
  | inr e ↦ rw e
]

-- A turn's outputs in front of those of the rest of the run.
sent-append_step :
    (first later : List Output) (rest kept before xs : List BatchItem)
    → sent later ++ rest ≡ kept ++ xs
    → sent first ++ kept ≡ before
    → sent (first ++ later) ++ rest ≡ before ++ xs
sent-append_step first later rest kept before xs e f = rw (sent-append first later) (
    append_assoc (sent first) (sent later) rest
    ∙ ap (◌++◌ (sent first)) e
    ∙ sym (append_assoc (sent first) kept xs)
    ∙ ap (λ t. t ++ xs) f)

Left-append :
    (l : Option Loop) (first later : List Output) (rest : List BatchItem)
    → Left l later rest
    → Left l (first ++ later) rest
Left-append (some l) first later rest h = h
Left-append none first later rest (before, e) =
    (first ++ before, ap (◌++◌ first) e ∙ sym (append_assoc first before (closed_errors rest)))

pub run-none : (es : List Event) → run none es ≡ (none, [])
unfolding run
run-none [] = refl
run-none (e ∷ es) = refl

-- No item is lost, sent twice or moved before an earlier one: the batches that were sent on,
-- followed by what is left, are the items received, in order. What is left is in the storage,
-- and once the loop has ended each message among it has been answered with an error.
pub run-sent :
    (l : Loop) (es : List Event)
    → (rest : List BatchItem) × (sent (run (some l) es).1 ++ rest
        ≡ l.batch_storage.storage ++ items es)
      × Left (run (some l) es).0 (run (some l) es).1 rest
unfolding run step
run-sent l [] = (l.batch_storage.storage, sym (append-nil _), refl)
run-sent l (received x ∷ es) =
    let (rest, e, left) = run-sent (on_item l x).0 es in
    (
      rest,
      sent-append_step (on_item l x).1 _ rest (on_item l x).0.batch_storage.storage _ (items es) e
            (sent-on_item l x)
          ∙ append_assoc l.batch_storage.storage (x ∷ []) (items es),
      Left-append _ (on_item l x).1 _ rest left,
    )
run-sent l (closed ∷ es) =
    let xs = l.batch_storage.storage in
    rw (run-none es, append-nil (closed_errors xs), append-nil xs)
      (xs, rw (sent-closed_errors xs), ([], refl))
run-sent l (timer_fired ∷ es) =
    let (rest, e, left) = run-sent (on_timer l).0 es in
    (
      rest,
      sent-append_step (on_timer l).1 _ rest (on_timer l).0.batch_storage.storage _ (items es) e
          (sent-on_timer l),
      Left-append _ (on_timer l).1 _ rest left,
    )
