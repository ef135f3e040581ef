-- ===== src/Consumer/Multi/Items.antt =====
-- The messages in a channel that holds no errors.
use pulsar_rdg_rs.Prelude.{◌≡◌, refl, ap, List, [], ◌∷◌, ◌++◌, ok}
use pulsar_rdg_rs.Consumer.Multi.{Body, Item}

abbrev pub oks : {E : Type 0} → List Body → List (Item E)
oks [] = []
oks (x ∷ xs) = ok x ∷ oks xs

module _ (E : Type 0) where
  pub oks-append : (xs ys : List Body) → oks {E = E} (xs ++ ys) ≡ oks xs ++ oks ys
  oks-append [] ys = refl
  oks-append (x ∷ xs) ys = ap (◌∷◌ (ok x)) (oks-append xs ys)

  pub oks-split :
      (xs : List Body) (items : List (Item E)) (zs : List Body)
      → oks xs ++ items ≡ oks zs
      → (ys : List Body) × (items ≡ oks ys)
  oks-split [] items zs h = (zs, h)
  oks-split (x ∷ xs) items [] h = absurd (cc)
  oks-split (x ∷ xs) items (z ∷ zs) h = oks-split xs items zs (cc)
