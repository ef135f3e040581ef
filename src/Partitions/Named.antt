-- ===== src/Partitions/Named.antt =====
-- The numbers of partitions and their names behave alike.
use pulsar_rdg_rs.Prelude.{
  ℕ, ◌^◌, ◌≤◌, ◌<◌, ◌≡◌, ◌≢◌, refl, sym, ap, ◌∙◌, some, List, [], ◌∷◌, map, ok, Result, arith, leb,
  ◌==◌, ==_iff, Bool-ext, ◌>>=◌, Bool-cases, inl, inr,
}
use pulsar_rdg_rs.Prelude.Equals.{text_eq}
use pulsar_rdg_rs.Bytes.{Text}
use pulsar_rdg_rs.Manager.{BrokerAddress}
use pulsar_rdg_rs.Partitions.{
  partition_name, partition_index, sort_key, or_max, insert_by, sort_by_key, try_join_all,
}
use pulsar_rdg_rs.Partitions.Building.{contains, unknown}
use pulsar_rdg_rs.Partitions.Names.{partition_index-partition_name}
use pulsar_rdg_rs.Partitions.Sorting.{count, AllKeyed}
use pulsar_rdg_rs.Partitions.Missing.{AllBelow, missing}

module _ {A B : Type 0} where
  pub try_join_all-ok :
      {E : Type 0} (f : A → B) (xs : List A)
      → try_join_all {E = E} (λ a. ok (f a)) xs ≡ ok (map f xs)
  try_join_all-ok {E = E} f [] = refl
  try_join_all-ok {E = E} f (x ∷ xs) =
      ap (λ (r : Result E (List B)). r >>= λ bs. ok (f x ∷ bs)) (try_join_all-ok {E = E} f xs)

  insert_by-map :
      (key : B → ℕ) (f : A → B) (x : A) (ys : List A)
      → insert_by key (f x) (map f ys) ≡ map f (insert_by (λ a. key (f a)) x ys)
  insert_by-map key f x [] = refl
  insert_by-map key f x (y ∷ ys) = elim (Bool-cases (leb (key (f x)) (key (f y)))) [
    | inl e ↦ rw e refl
    | inr e ↦ rw e (ap (λ zs. f y ∷ zs) (insert_by-map key f x ys))
  ]

  pub sort_by_key-map :
      (key : B → ℕ) (f : A → B) (xs : List A)
      → sort_by_key key (map f xs) ≡ map f (sort_by_key (λ a. key (f a)) xs)
  sort_by_key-map key f [] = refl
  sort_by_key-map key f (x ∷ xs) =
      ap (insert_by key (f x)) (sort_by_key-map key f xs)
      ∙ insert_by-map key f x (sort_by_key (λ a. key (f a)) xs)

-- What the lookup gives for the partition with a number.
abbrev pub found : Text → (Text → BrokerAddress) → ℕ → Text × BrokerAddress
found topic address i = (partition_name topic i, address (partition_name topic i))

module _ (topic : Text) (some_text : topic ≢ []) where
  partition_index-name : (n : ℕ) → n < 2 ^ 64 → partition_index (partition_name topic n) ≡ some n
  partition_index-name n h = go topic some_text
    where
      go : (t : Text) → t ≢ [] → partition_index (partition_name t n) ≡ some n
      go [] e = absurd (e refl)
      go (c ∷ cs) e = (partition_index-partition_name c cs n h).0

  pub partition_name-AllKeyed :
      (m : ℕ) (xs : List ℕ)
      → m ≤ 2 ^ 64
      → AllBelow m xs
      → AllKeyed (λ i. sort_key (partition_name topic i)) xs
  unfolding sort_key
  partition_name-AllKeyed m [] l h = tt
  partition_name-AllKeyed m (x ∷ xs) l (b, h) =
      (ap or_max (partition_index-name x (omega arith)), partition_name-AllKeyed m xs l h)

  partition_name-injective :
      (i j : ℕ) → i < 2 ^ 64 → j < 2 ^ 64 → partition_name topic i ≡ partition_name topic j → i ≡ j
  partition_name-injective i j h k e =
      ap or_max (sym (partition_index-name i h) ∙ ap partition_index e ∙ partition_index-name j k)

  partition_name-beq :
      (i j : ℕ)
      → i < 2 ^ 64
      → j < 2 ^ 64
      → text_eq.beq (partition_name topic i) (partition_name topic j) ≡ (i == j)
  partition_name-beq i j h k =
      let iff = text_eq.beq_iff (partition_name topic i) (partition_name topic j) in
      let injective = partition_name-injective i j h k in
      Bool-ext (text_eq.beq (partition_name topic i) (partition_name topic j)) (i == j)
        (λ e. (==_iff i j).1 (injective (iff.0 e)))
        (λ e. iff.1 (ap (partition_name topic) ((==_iff i j).0 e)))

  contains-partition_name :
      (m x : ℕ) (known : List ℕ)
      → m ≤ 2 ^ 64
      → x < m
      → AllBelow m known
      → contains (partition_name topic x) (map (partition_name topic) known) ≡ leb 1 (count x known)
  contains-partition_name m x [] l b h = ground arith
  contains-partition_name m x (k ∷ known) l b (c, h) =
      let rest = contains-partition_name m x known l b h in
      rw (partition_name-beq k x (omega arith) (omega arith), rest) (ground arith)

  pub unknown-found :
      (address : Text → BrokerAddress) (m : ℕ) (known xs : List ℕ)
      → m ≤ 2 ^ 64
      → AllBelow m known
      → AllBelow m xs
      → unknown (map (partition_name topic) known) (map (found topic address) xs)
        ≡ map (found topic address) (missing known xs)
  unfolding unknown
  unknown-found address m known [] l h k = refl
  unknown-found address m known (x ∷ xs) l h (b, k) =
      let rest = unknown-found address m known xs l h k in
      elim (Bool-cases (leb 1 (count x known))) [
        | inl e ↦ rw (contains-partition_name m x known l b h, e, rest) refl
        | inr e ↦ rw (contains-partition_name m x known l b h, e, rest) refl
      ]
