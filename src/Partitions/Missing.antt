-- ===== src/Partitions/Missing.antt =====
-- Which partitions a producer has, and which it lacks, as lists of numbers.
use pulsar_rdg_rs.Prelude.{
  ℕ, ◌+◌, ◌≤◌, ◌<◌, ◌≡◌, ◌∙◌, List, [], ◌∷◌, ◌++◌, arith, leb, if◌then◌else◌,
}
use pulsar_rdg_rs.Prelude.Equals.{text_eq}
use pulsar_rdg_rs.Partitions.{sort_by_key, range}
use pulsar_rdg_rs.Partitions.Sorting.{
  count, within, AllKeyed, sort_by_key-count, sort_by_key-IsOrdered,
}
use pulsar_rdg_rs.Partitions.Ranges.{count-range, IsOrdered-range}

abbrev pub AllBelow : ℕ → List ℕ → Type 0
AllBelow m [] = Unit
AllBelow m (x ∷ xs) = (x < m) × AllBelow m xs

abbrev pub missing : List ℕ → List ℕ → List ℕ
missing known [] = []
missing known (x ∷ xs) =
    let rest = missing known xs in if leb 1 (count x known) then rest else x ∷ rest

count-append : (x : ℕ) (xs ys : List ℕ) → count x (xs ++ ys) ≡ count x xs + count x ys
count-append x [] ys = omega arith
count-append x (z ∷ xs) ys = let rest = count-append x xs ys in omega (arith, rest)

count-missing :
    (x : ℕ) (known xs : List ℕ)
    → count x (missing known xs) ≡ (if leb 1 (count x known) then 0 else count x xs)
count-missing x known [] = ground arith
count-missing x known (y ∷ ys) = let rest = count-missing x known ys in ground (arith, rest)

-- Each number below `m` once at most, and no others.
abbrev pub IsPart : ℕ → List ℕ → Type 0
IsPart m known = (x : ℕ) → count x known ≤ within 0 m x

pub IsPart-AllBelow : (m : ℕ) (xs : List ℕ) → IsPart m xs → AllBelow m xs
IsPart-AllBelow m [] h = tt
IsPart-AllBelow m (x ∷ xs) h =
    let here = h x in
    (ground (arith, here), IsPart-AllBelow m xs (λ y. let there = h y in omega (arith, there)))

pub count-completed :
    (m x : ℕ) (known : List ℕ)
    → IsPart m known
    → count x (known ++ missing known (range 0 m)) ≡ within 0 m x
count-completed m x known h =
    let part = h x in
    let rest = count-missing x known (range 0 m) in
    let all = count-range x 0 m in
    count-append x known (missing known (range 0 m)) ∙ ground (arith, part, rest, all)

-- Sorting what holds each number below `m` once, by keys that are the numbers, gives them in order.
pub sort_by_key-range :
    (key : ℕ → ℕ) (m : ℕ) (xs : List ℕ)
    → AllKeyed key xs
    → ((x : ℕ) → count x xs ≡ within 0 m x)
    → sort_by_key key xs ≡ range 0 m
sort_by_key-range key m xs k h =
    IsOrdered-range 0 m (sort_by_key key xs) (sort_by_key-IsOrdered key xs k)
      (λ x. sort_by_key-count key x xs ∙ h x)
