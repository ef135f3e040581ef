-- ===== src/Partitions/Sorting.antt =====
-- Sorting by a key that numbers the elements of a range gives the range.
use pulsar_rdg_rs.Prelude.{
  ℕ, ◌+◌, ◌≤◌, ◌≡◌, refl, ap, ◌∙◌, List, [], ◌∷◌, arith, ltb, leb, ◌==◌, ◌&&◌, if◌then◌else◌,
  Bool-cases, inl, inr, leb→le,
}
use pulsar_rdg_rs.Partitions.{insert_by, sort_by_key}

-- How often `x` occurs.
abbrev pub count : ℕ → List ℕ → ℕ
count x [] = 0
count x (y ∷ ys) = (if y == x then 1 else 0) + count x ys

abbrev pub within : ℕ → ℕ → ℕ → ℕ
within start n x = if leb start x && ltb x (start + n) then 1 else 0

abbrev pub AllKeyed : (ℕ → ℕ) → List ℕ → Type 0
AllKeyed key [] = Unit
AllKeyed key (x ∷ xs) = (key x ≡ x) × AllKeyed key xs

abbrev pub AllFrom : ℕ → List ℕ → Type 0
AllFrom a [] = Unit
AllFrom a (x ∷ xs) = (a ≤ x) × AllFrom a xs

abbrev pub IsOrdered : List ℕ → Type 0
IsOrdered [] = Unit
IsOrdered (x ∷ xs) = AllFrom x xs × IsOrdered xs

module _ (key : ℕ → ℕ) where
  insert_by-count : (k x : ℕ) (ys : List ℕ) → count x (insert_by key k ys) ≡ count x (k ∷ ys)
  insert_by-count k x [] = refl
  insert_by-count k x (y ∷ ys) = elim (Bool-cases (leb (key k) (key y))) [
    | inl e ↦ rw e refl
    | inr e ↦ rw e (omega (arith, insert_by-count k x ys))
  ]

  pub sort_by_key-count : (x : ℕ) (xs : List ℕ) → count x (sort_by_key key xs) ≡ count x xs
  sort_by_key-count x [] = refl
  sort_by_key-count x (y ∷ ys) =
      insert_by-count y x (sort_by_key key ys)
      ∙ ap (λ n. (if y == x then 1 else 0) + n) (sort_by_key-count x ys)

  insert_by-AllKeyed :
      (k : ℕ) (ys : List ℕ) → key k ≡ k → AllKeyed key ys → AllKeyed key (insert_by key k ys)
  insert_by-AllKeyed k [] e h = (e, tt)
  insert_by-AllKeyed k (y ∷ ys) e (f, h) = elim (Bool-cases (leb (key k) (key y))) [
    | inl b ↦ rw b (e, (f, h))
    | inr b ↦ rw b (f, insert_by-AllKeyed k ys e h)
  ]

  sort_by_key-AllKeyed : (xs : List ℕ) → AllKeyed key xs → AllKeyed key (sort_by_key key xs)
  sort_by_key-AllKeyed [] h = tt
  sort_by_key-AllKeyed (x ∷ xs) (e, h) =
      insert_by-AllKeyed x (sort_by_key key xs) e (sort_by_key-AllKeyed xs h)

AllFrom-weaken : (a b : ℕ) (xs : List ℕ) → a ≤ b → AllFrom b xs → AllFrom a xs
AllFrom-weaken a b [] l h = tt
AllFrom-weaken a b (x ∷ xs) l (m, h) = (omega arith, AllFrom-weaken a b xs l h)

module _ (key : ℕ → ℕ) where
  insert_by-AllFrom :
      (a k : ℕ) (ys : List ℕ) → a ≤ k → AllFrom a ys → AllFrom a (insert_by key k ys)
  insert_by-AllFrom a k [] l h = (l, tt)
  insert_by-AllFrom a k (y ∷ ys) l (m, h) = elim (Bool-cases (leb (key k) (key y))) [
    | inl b ↦ rw b (l, (m, h))
    | inr b ↦ rw b (m, insert_by-AllFrom a k ys l h)
  ]

  insert_by-IsOrdered :
      (k : ℕ) (ys : List ℕ)
      → key k ≡ k
      → AllKeyed key ys
      → IsOrdered ys
      → IsOrdered (insert_by key k ys)
  insert_by-IsOrdered k [] e h o = (tt, tt)
  insert_by-IsOrdered k (y ∷ ys) e (f, h) (a, o) = elim (Bool-cases (leb (key k) (key y))) [
    | inl b ↦
        let l = leb→le (key k) (key y) b in
        rw b ((omega arith, AllFrom-weaken k y ys (omega arith) a), (a, o))
    | inr b ↦
        rw b (insert_by-AllFrom y k ys (ground (arith, e, f, b)) a, insert_by-IsOrdered k ys e h o)
  ]

  pub sort_by_key-IsOrdered : (xs : List ℕ) → AllKeyed key xs → IsOrdered (sort_by_key key xs)
  sort_by_key-IsOrdered [] h = tt
  sort_by_key-IsOrdered (x ∷ xs) (e, h) =
      insert_by-IsOrdered x (sort_by_key key xs) e (sort_by_key-AllKeyed key xs h)
        (sort_by_key-IsOrdered xs h)
