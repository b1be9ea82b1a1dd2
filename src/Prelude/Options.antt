-- ===== src/Prelude/Options.antt =====
-- Chains of steps of which each may have no result.
use mathlib.Core.Path.{◌≡◌, refl}
use mathlib.Core.Option.{Option, none, some}

infixl 5 ◌>>=◌
abbrev pub ◌>>=◌ {ℓ κ} : {A : Type ℓ} {B : Type κ} → Option A → (A → Option B) → Option B
none >>= f = none
some a >>= f = f a

-- There is a result.
abbrev pub IsDefined {ℓ} : {A : Type ℓ} → Option A → Type ℓ
IsDefined {A = A} o = (a : A) × (o ≡ some a)

-- A chain has a result if every step has one.
pub bind-IsDefined {ℓ κ} :
    {A : Type ℓ} {B : Type κ} (m : Option A) (f : A → Option B)
    → IsDefined m
    → ((a : A) → m ≡ some a → IsDefined (f a))
    → IsDefined (m >>= f)
bind-IsDefined none f (a, e) k = cc
bind-IsDefined (some b) f (a, e) k = k b refl

-- What a chain with a result went through.
pub bind_split {ℓ κ} :
    {A : Type ℓ} {B : Type κ} (m : Option A) (f : A → Option B) (b : B)
    → (m >>= f) ≡ some b
    → (a : A) × (m ≡ some a) × (f a ≡ some b)
bind_split none f b h = cc
bind_split (some a) f b h = (a, refl, h)

-- The value if there is none, or what becomes of the one there is.
abbrev pub match_option {ℓ κ} : {A : Type ℓ} {B : Type κ} → Option A → B → (A → B) → B
match_option none b f = b
match_option (some a) b f = f a

pub match_cases {ℓ κ μ} :
    {A : Type ℓ} {B : Type κ} (P : B → Type μ) (o : Option A) (b : B) (f : A → B)
    → (o ≡ none → P b)
    → ((a : A) → o ≡ some a → P (f a))
    → P (match_option o b f)
match_cases P none b f p q = p refl
match_cases P (some a) b f p q = q a refl

-- A chain whose first step has this result goes on with it.
pub bind_some {ℓ κ} :
    {A : Type ℓ} {B : Type κ} (m : Option A) (f : A → Option B) (a : A) (r : Option B)
    → m ≡ some a
    → f a ≡ r
    → (m >>= f) ≡ r
bind_some m f a r e e' = rw e e'

pub match_some {ℓ κ} :
    {A : Type ℓ} {B : Type κ} (o : Option A) (b : B) (f : A → B) (a : A) (r : B)
    → o ≡ some a
    → f a ≡ r
    → match_option o b f ≡ r
match_some o b f a r e e' = rw e e'
