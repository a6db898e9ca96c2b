-- ===== src/Prelude/Outcome.antt =====
-- What a piece of Go code comes to: it returns, or it panics. A model that counts its rounds may
-- also run out of them.
use mathlib.Core.Path.{◌≡◌, refl, sym, ◌∙◌}
use mathlib.Core.Option.{Option, none, some}

pub data Run {ℓ} (A : Type ℓ) : Type ℓ where
  returns : A → Run A
  panics : Run A
  out_of_fuel : Run A

infixl 5 ◌>>=◌
abbrev pub ◌>>=◌ {ℓ κ} : {A : Type ℓ} {B : Type κ} → Run A → (A → Run B) → Run B
returns a >>= f = f a
panics >>= f = panics
out_of_fuel >>= f = out_of_fuel

-- a nil pointer or map that is used
abbrev pub deref {ℓ} : {A : Type ℓ} → Option A → Run A
deref none = panics
deref (some a) = returns a

-- `m` returns, and `P` holds of what it returns.
pub data Returns {ℓ κ} {A : Type ℓ} (P : A → Type κ) (m : Run A) : Type (ℓ ⊔ κ) where
  with_value : (a : A) → m ≡ returns a → P a → Returns P m

pub Returns-pure {ℓ κ} : {A : Type ℓ} {P : A → Type κ} (a : A) → P a → Returns P (returns a)
Returns-pure a h = with_value a refl h

pub Returns-bind {ℓ κ λ'} :
    {A B : Type ℓ} {P : A → Type κ} {Q : B → Type λ'} (m : Run A) (f : A → Run B)
    → Returns P m
    → ((a : A) → P a → Returns Q (f a))
    → Returns Q (m >>= f)
Returns-bind {Q} m f (with_value a e h) k = rw e (k a h)

pub Returns-map {ℓ κ λ'} :
    {A : Type ℓ} {P : A → Type κ} {Q : A → Type λ'} {m : Run A}
    → Returns P m
    → ((a : A) → P a → Q a)
    → Returns Q m
Returns-map (with_value a e h) k = with_value a e (k a h)

returns-injective {ℓ} : {A : Type ℓ} {a b : A} → returns a ≡ returns b → a ≡ b
returns-injective h = cc

-- What holds of every value that `m` returns holds of the one that it is known to return.
pub Returns-at {ℓ κ} :
    {A : Type ℓ} {P : A → Type κ} {m : Run A} (a : A) → Returns P m → m ≡ returns a → P a
Returns-at {P} a (with_value b e h) e' = rw (returns-injective (sym e' ∙ e)) h
