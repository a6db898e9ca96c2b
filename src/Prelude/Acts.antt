-- ===== src/Prelude/Acts.antt =====
-- Code that calls a service: it threads the service's state, and it may end with an error.
use mathlib.Core.Path.{◌≡◌, refl}
use mathlib.Core.Option.{Option, none, some}

abbrev pub Act {ℓ κ} : Type ℓ → Type κ → Type (ℓ ⊔ κ)
Act S A = S → S × Option A

abbrev pub pure {ℓ κ} : {S : Type ℓ} {A : Type κ} → A → Act S A
pure a s = (s, some a)

abbrev pub and_then {ℓ κ μ} :
    {S : Type ℓ} {A : Type κ} {B : Type μ} → S × Option A → (A → Act S B) → S × Option B
and_then (s, none) f = (s, none)
and_then (s, some a) f = f a s

infixl 5 ◌>>=◌
abbrev pub ◌>>=◌ {ℓ κ μ} :
    {S : Type ℓ} {A : Type κ} {B : Type μ} → Act S A → (A → Act S B) → Act S B
◌>>=◌ act f s = and_then (act s) f

infixl 5 ◌>>◌
abbrev pub ◌>>◌ {ℓ κ μ} : {S : Type ℓ} {A : Type κ} {B : Type μ} → Act S A → Act S B → Act S B
act >> rest = act >>= λ _. rest

-- Where a chain succeeds, its first part did, and the rest ran on what that left.
pub and_then-some {ℓ κ μ} :
    {S : Type ℓ} {A : Type κ} {B : Type μ} (x : S × Option A) (f : A → Act S B) (b : B)
    → (and_then x f).1 ≡ some b
    → (a : A) × (x.1 ≡ some a) × (and_then x f ≡ f a x.0)
and_then-some (s, none) f b h = absurd cc
and_then-some (s, some a) f b h = (a, refl, refl)

-- What holds before the act holds after it.
abbrev pub Kept {ℓ κ μ} : {S : Type ℓ} {A : Type κ} → (S → Type μ) → Act S A → Type (ℓ ⊔ μ)
Kept {S} Q act = (s : S) → Q s → Q (act s).0

and_then-Kept {ℓ κ λ' μ} :
    {S : Type ℓ} {A : Type κ} {B : Type λ'} (Q : S → Type μ) (x : S × Option A) (f : A → Act S B)
    → Q x.0
    → ((a : A) → Kept Q (f a))
    → Q (and_then x f).0
and_then-Kept Q (s, none) f h k = h
and_then-Kept Q (s, some a) f h k = k a s h

pub bind-Kept {ℓ κ λ' μ} :
    {S : Type ℓ} {A : Type κ} {B : Type λ'} (Q : S → Type μ) (m : Act S A) (f : A → Act S B)
    → Kept Q m
    → ((a : A) → Kept Q (f a))
    → Kept Q (m >>= f)
bind-Kept Q m f hm hf s h = and_then-Kept Q (m s) f (hm s h) hf

-- Where the act starts in `P` and succeeds, it ends in `Q`.
abbrev pub Ensures {ℓ κ μ ν} :
    {S : Type ℓ} {A : Type κ} → (S → Type μ) → Act S A → (S → Type ν) → Type (ℓ ⊔ κ ⊔ μ ⊔ ν)
Ensures {S} {A} P act Q = (s : S) (a : A) → P s → (act s).1 ≡ some a → Q (act s).0

and_then-Ensures {ℓ κ λ' μ ν} :
    {S : Type ℓ} {A : Type κ} {B : Type λ'} (Q : S → Type μ) (R : S → Type ν) (x : S × Option A)
    (f : A → Act S B) (b : B)
    → ((a : A) → x.1 ≡ some a → Q x.0)
    → ((a : A) → Ensures Q (f a) R)
    → (and_then x f).1 ≡ some b
    → R (and_then x f).0
and_then-Ensures Q R (s, none) f b h k e = absurd cc
and_then-Ensures Q R (s, some a) f b h k e = k a s b (h a refl) e

pub bind-Ensures {ℓ κ λ' μ ν ξ} :
    {S : Type ℓ} {A : Type κ} {B : Type λ'} (P : S → Type μ) (Q : S → Type ν) (R : S → Type ξ)
    (m : Act S A) (f : A → Act S B)
    → Ensures P m Q
    → ((a : A) → Ensures Q (f a) R)
    → Ensures P (m >>= f) R
bind-Ensures P Q R m f hm hf s b p e = and_then-Ensures Q R (m s) f b (λ a. hm s a p) hf e
