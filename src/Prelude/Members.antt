-- ===== src/Prelude/Members.antt =====
-- `contains` on lists of a type with a Boolean equality, and `retain` of what another list lacks.
use pulsar_rdg_rs.Prelude.{
  ◌≤◌, ◌≡◌, refl, Bool, false, List, [], ◌∷◌, ◌++◌, arith, ◌||◌, length, if◌then◌else◌,
}
use pulsar_rdg_rs.Prelude.Maps.{Eq}

module _ {κ} {K : Type κ} ⦃eq : Eq K⦄ where
  abbrev pub contains : K → List K → Bool
  contains k [] = false
  contains k (j ∷ rest) = eq.beq j k || contains k rest

  -- retain(|x| !gone.contains(x))
  abbrev pub without : List K → List K → List K
  without gone [] = []
  without gone (x ∷ xs) = let rest = without gone xs in if contains x gone then rest else x ∷ rest

  pub contains-append :
      (a : K) (xs ys : List K) → contains a (xs ++ ys) ≡ (contains a xs || contains a ys)
  contains-append a [] ys = refl
  contains-append a (x ∷ xs) ys = ground (arith, contains-append a xs ys)

  pub contains-without :
      (a : K) (gone xs : List K)
      → contains a (without gone xs) ≡ (if contains a gone then false else contains a xs)
  contains-without a gone [] = ground arith
  contains-without a gone (x ∷ xs) = ground (arith, contains-without a gone xs, eq.beq_iff x a)

  pub without-append :
      (gone xs ys : List K) → without gone (xs ++ ys) ≡ without gone xs ++ without gone ys
  without-append gone [] ys = refl
  without-append gone (x ∷ xs) ys = ground (arith, without-append gone xs ys)

  pub length-without-le : (gone xs : List K) → length (without gone xs) ≤ length xs
  length-without-le gone [] = omega arith
  length-without-le gone (x ∷ xs) = ground (arith, length-without-le gone xs)
