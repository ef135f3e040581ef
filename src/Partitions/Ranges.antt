-- ===== src/Partitions/Ranges.antt =====
-- A list in order that holds each number of a range once is the range.
use pulsar_rdg_rs.Prelude.{ℕ, zero, suc, ◌<◌, ◌≡◌, refl, ap, ◌∙◌, subst, List, [], ◌∷◌, arith}
use pulsar_rdg_rs.Partitions.{range}
use pulsar_rdg_rs.Partitions.Sorting.{count, within, AllFrom, IsOrdered}

count-AllFrom : (x a : ℕ) (xs : List ℕ) → AllFrom a xs → x < a → count x xs ≡ 0
count-AllFrom x a [] h l = refl
count-AllFrom x a (y ∷ ys) (m, h) l = let rest = count-AllFrom x a ys h l in ground (arith, rest)

pub count-range : (x start n : ℕ) → count x (range start n) ≡ within start n x
count-range x start zero = ground arith
count-range x start (suc n) = ground (arith, count-range x (suc start) n)

first_of_range :
    (start n y : ℕ) (ys : List ℕ)
    → AllFrom y ys
    → ((x : ℕ) → count x (y ∷ ys) ≡ within start (suc n) x)
    → y ≡ start
first_of_range start n y ys a h =
    let here = h y in
    let first = h start in
    let missing = count-AllFrom start y ys a in ground (arith, here, first, missing)

-- Without the first of the range, the rest are the others.
rest_of_range :
    (start n x : ℕ) (ys : List ℕ)
    → count x (start ∷ ys) ≡ within start (suc n) x
    → count x ys ≡ within (suc start) n x
rest_of_range start n x ys h = ground (arith, h)

pub IsOrdered-range :
    (start n : ℕ) (xs : List ℕ)
    → IsOrdered xs
    → ((x : ℕ) → count x xs ≡ within start n x)
    → xs ≡ range start n
IsOrdered-range start zero [] o h = refl
IsOrdered-range start zero (y ∷ ys) o h = let here = h y in ground (arith, here)
IsOrdered-range start (suc n) [] o h = let here = h start in ground (arith, here)
IsOrdered-range start (suc n) (y ∷ ys) (a, o) h =
    let e = first_of_range start n y ys a h in
    let rest : (x : ℕ) → count x ys ≡ within (suc start) n x = λ x.
      rest_of_range start n x ys (subst (λ z. count x (z ∷ ys) ≡ within start (suc n) x) e (h x)) in
    ap (λ z. z ∷ ys) e ∙ ap (λ zs. start ∷ zs) (IsOrdered-range (suc start) n ys o rest)
