-- ===== src/Producer/Contents.antt =====
-- What the storage of `batch_process_loop` and a batch hold.
use pulsar_rdg_rs.Prelude.{
  ℕ, ◌+◌, ◌≤◌, ◌<◌, ◌≡◌, refl, Bool, true, false, Option, some, List, [], ◌∷◌, ◌++◌, length, arith,
  ◌&&◌,
}
use pulsar_rdg_rs.Producer.Batching.{
  BatchItem, single_message, flush, BatchStorage, item_size, ends_in_flush, ready_to_flush, Loop,
  Output, batch, closed_error, is_some,
}

abbrev pub total_size : List BatchItem → ℕ
total_size [] = 0
total_size (x ∷ xs) = item_size x + total_size xs

abbrev pub AllSingle : List BatchItem → Type 0
AllSingle [] = Unit
AllSingle (single_message tx m ∷ xs) = AllSingle xs
AllSingle (flush tx ∷ xs) = ⊥

abbrev pub non_empty : List BatchItem → Bool
non_empty [] = false
non_empty (x ∷ xs) = true

-- Between two turns: the byte count is right, no flush request and no full batch is kept
-- waiting, and the timer runs exactly while there is a timeout and something to send.
pub record IsBatching (l : Loop) : Type 0 where
  pub sized : l.batch_storage.size ≡ total_size l.batch_storage.storage
  pub waiting : non_empty l.batch_storage.storage ≡ true → ready_to_flush l.batch_storage ≡ false
  pub singles : AllSingle l.batch_storage.storage
  pub armed : l.timer ≡ (is_some l.batch_storage.timeout && non_empty l.batch_storage.storage)

-- What `message_send_loop` relies on: a batch is not empty, a flush request can only be its last
-- item, and it has no more items than the producer was told to batch.
abbrev pub FlushesLast : List BatchItem → Type 0
FlushesLast [] = ⊥
FlushesLast (x ∷ []) = Unit
FlushesLast (single_message tx m ∷ y ∷ xs) = FlushesLast (y ∷ xs)
FlushesLast (flush tx ∷ y ∷ xs) = ⊥

abbrev pub IsBatch : Option ℕ → List BatchItem → Type 0
IsBatch max_size xs = FlushesLast xs × ((n : ℕ) → max_size ≡ some n → 0 < n → length xs ≤ n)

abbrev pub AllBatches : Option ℕ → List Output → Type 0
AllBatches max_size [] = Unit
AllBatches max_size (batch xs ∷ os) = IsBatch max_size xs × AllBatches max_size os
AllBatches max_size (closed_error tx ∷ os) = AllBatches max_size os

pub total_size-append :
    (xs ys : List BatchItem) → total_size (xs ++ ys) ≡ total_size xs + total_size ys
total_size-append [] ys = omega arith
total_size-append (x ∷ xs) ys = omega (arith, total_size-append xs ys)

pub ends_in_flush-append :
    (xs : List BatchItem) (tx : ℕ) → ends_in_flush (xs ++ flush tx ∷ []) ≡ true
ends_in_flush-append [] tx = refl
ends_in_flush-append (single_message t m ∷ []) tx = refl
ends_in_flush-append (flush t ∷ []) tx = refl
ends_in_flush-append (x ∷ y ∷ xs) tx = ends_in_flush-append (y ∷ xs) tx

pub AllSingle-append :
    (xs : List BatchItem) (x : BatchItem)
    → AllSingle xs
    → ends_in_flush (xs ++ x ∷ []) ≡ false
    → AllSingle (xs ++ x ∷ [])
AllSingle-append [] (single_message tx m) h e = tt
AllSingle-append [] (flush tx) h e = cc
AllSingle-append (single_message t m ∷ []) (single_message tx n) h e = tt
AllSingle-append (single_message t m ∷ []) (flush tx) h e = cc
AllSingle-append (single_message t m ∷ y ∷ xs) x h e = AllSingle-append (y ∷ xs) x h e
AllSingle-append (flush t ∷ xs) x h e = absurd h

pub FlushesLast-append :
    (xs : List BatchItem) (x : BatchItem) → AllSingle xs → FlushesLast (xs ++ x ∷ [])
FlushesLast-append [] x h = tt
FlushesLast-append (single_message t m ∷ []) x h = tt
FlushesLast-append (single_message t m ∷ y ∷ xs) x h = FlushesLast-append (y ∷ xs) x h
FlushesLast-append (flush t ∷ xs) x h = absurd h

pub FlushesLast-AllSingle :
    (x : BatchItem) (xs : List BatchItem) → AllSingle (x ∷ xs) → FlushesLast (x ∷ xs)
FlushesLast-AllSingle x [] h = tt
FlushesLast-AllSingle (single_message t m) (y ∷ xs) h = FlushesLast-AllSingle y xs h
FlushesLast-AllSingle (flush t) (y ∷ xs) h = absurd h

pub below_limit :
    (s : BatchStorage) (n : ℕ)
    → ready_to_flush s ≡ false
    → s.max_size ≡ some n
    → length s.storage < n
unfolding ready_to_flush
below_limit s n h e = ground arith

pub not-ends_in_flush :
    (s : BatchStorage) → ready_to_flush s ≡ false → ends_in_flush s.storage ≡ false
unfolding ready_to_flush
not-ends_in_flush s h = ground arith
