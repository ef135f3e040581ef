-- ===== src/Prelude/Results.antt =====
-- Rust's `Result`, with the bind that `?` stands for.
use mathlib.Core.Path.{◌≡◌, refl}
use mathlib.Core.Option.{Option, none, some}

pub data Result {ℓ κ} (E : Type κ) (A : Type ℓ) : Type (ℓ ⊔ κ) where
  ok : A → Result E A
  err : E → Result E A

infixl 5 ◌>>=◌ ◌>>◌
abbrev pub ◌>>=◌ {ℓ κ μ} :
    {E : Type μ} {A : Type ℓ} {B : Type κ} → Result E A → (A → Result E B) → Result E B
ok a >>= f = f a
err e >>= f = err e

abbrev pub ◌>>◌ {ℓ μ} : {E : Type μ} {B : Type ℓ} → Result E (Unit {0}) → Result E B → Result E B
m >> k = m >>= λ _. k

abbrev pub map_err {ℓ κ μ} :
    {A : Type ℓ} {E : Type κ} {F : Type μ} → (E → F) → Result E A → Result F A
map_err f (ok a) = ok a
map_err f (err e) = err (f e)

-- Where a chain gives a value, its first part has given one to the rest.
pub bind_parts {ℓ κ μ} :
    {Err : Type μ} {In : Type ℓ} {Out : Type κ} (first : Result Err In) (next : In → Result Err Out)
    {out : Out}
    → (first >>= next) ≡ ok out
    → (given : In) × (first ≡ ok given) × (next given ≡ ok out)
bind_parts (err failed) next h = absurd (cc)
bind_parts (ok given) next h = (given, refl, h)

-- The rest of a run, if there is one.
abbrev pub continued : {A B : Type 0} → (A → Option B) → Option A → Option B
continued rest none = none
continued rest (some a) = rest a
