-- ===== src/Partitions/Names.antt =====
-- The name of a partition says which partition it is.
use pulsar_rdg_rs.Prelude.{
  ℕ, ◌≡◌, ◌<◌, ◌^◌, refl, sym, ap, ◌∙◌, subst, true, some, [], ◌∷◌, ◌++◌, arith, ==_false, le→leb,
}
use pulsar_rdg_rs.Bytes.{Text}
use pulsar_rdg_rs.Decimal.{starts_with, rsplit_once, shown, parse_usize}
use pulsar_rdg_rs.Decimal.Parsing.{AllDigits, digits-AllDigits, digits-cons, parse_usize-shown}
use pulsar_rdg_rs.Decimal.Splitting.{rsplit_once-append, rsplit_once-AllDigits}
use pulsar_rdg_rs.Partitions.{
  partition_infix, index_after, partition_index, all_digits, digits_after, is_topic_partition_name,
  partition_name,
}

-- In front of digits, none of the ends of the infix but the whole one is the infix.
rsplit_once-infix :
    (d : ℕ) (ds : Text)
    → AllDigits (d ∷ ds)
    → rsplit_once partition_infix (partition_infix ++ (d ∷ ds)) ≡ some ([], d ∷ ds)
unfolding rsplit_once starts_with
rsplit_once-infix d ds (low, high, rest) =
    rw
      (
        rsplit_once-AllDigits 45 (112 ∷ 97 ∷ 114 ∷ 116 ∷ 105 ∷ 116 ∷ 105 ∷ 111 ∷ 110 ∷ 45 ∷ [])
            (d ∷ ds) (omega arith) (low, high, rest),
        ==_false 112 d (λ e. omega arith),
      )
      refl

rsplit_once-partition_name :
    (topic : Text) (n : ℕ)
    → (d : ℕ) × (ds : Text) × (shown n ≡ d ∷ ds)
      × AllDigits (d ∷ ds)
      × (rsplit_once partition_infix (partition_name topic n) ≡ some (topic ++ [], d ∷ ds))
unfolding partition_name
rsplit_once-partition_name topic n =
    let (d, ds, e) = digits-cons 19 n in
    let digits = subst AllDigits e (digits-AllDigits 20 n) in
    (
      d,
      ds,
      e,
      digits,
      rsplit_once-append partition_infix topic (partition_infix ++ shown n) [] (d ∷ ds) (
          ap (λ s. rsplit_once partition_infix (partition_infix ++ s)) e
          ∙ rsplit_once-infix d ds digits),
    )

all_digits-AllDigits : (s : Text) → AllDigits s → all_digits s ≡ true
all_digits-AllDigits [] h = refl
all_digits-AllDigits (c ∷ cs) (low, high, h) =
    rw (le→leb 48 c low, le→leb c 57 high) (all_digits-AllDigits cs h)

-- For a topic's name that is not empty and a number that fits a usize: the name of the partition
-- with this number is recognised as a partition's, and its index is the number.
pub partition_index-partition_name :
    (c : ℕ) (topic : Text) (n : ℕ)
    → n < 2 ^ 64
    → (partition_index (partition_name (c ∷ topic) n) ≡ some n)
      × (is_topic_partition_name (partition_name (c ∷ topic) n) ≡ true)
unfolding partition_index is_topic_partition_name
partition_index-partition_name c topic n h =
    let (d, ds, e, digits, split) = rsplit_once-partition_name (c ∷ topic) n in
    (
      ap index_after split ∙ ap parse_usize (sym e) ∙ parse_usize-shown n h,
      ap digits_after split ∙ all_digits-AllDigits (d ∷ ds) digits,
    )
