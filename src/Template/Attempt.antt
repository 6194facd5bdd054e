-- ===== src/Template/Attempt.antt =====
-- What a part of `main` comes to in Optimization/bw_template.c.
use network_optimization.Prelude.{◌≡◌, refl, Option, none, some}

-- `gave_up` is the end with status 1; `broken` is a fault, or a value that the language leaves open.
pub data Attempt {ℓ} (A : Type ℓ) : Type ℓ where
  going : A → Attempt A
  gave_up : Attempt A
  blocked : Attempt A
  broken : Attempt A

infixl 20 ◌>>=◌
abbrev pub ◌>>=◌ {ℓ κ} : {A : Type ℓ} {B : Type κ} → Attempt A → (A → Attempt B) → Attempt B
going a >>= f = f a
gave_up >>= f = gave_up
blocked >>= f = blocked
broken >>= f = broken

-- A NULL ends `main`.
abbrev pub unless_null {ℓ} : {A : Type ℓ} → Option A → Attempt A
unless_null none = gave_up
unless_null (some a) = going a

-- A fault in a function that is called.
abbrev pub unless_fault {ℓ} : {A : Type ℓ} → Option A → Attempt A
unless_fault none = broken
unless_fault (some a) = going a

pub unless_null_lem : {A : Type 0} (o : Option A) (a : A) → unless_null o ≡ going a → o ≡ some a
unless_null_lem none a e = cc
unless_null_lem (some b) a e = cc

-- A chain that goes on went on at its first link.
pub going_bind :
    {A B : Type 0} (m : Attempt A) (f : A → Attempt B) (b : B)
    → (m >>= f) ≡ going b
    → (a : A) × (m ≡ going a) × (f a ≡ going b)
going_bind (going a) f b e = (a, refl, e)
going_bind gave_up f b e = cc
going_bind blocked f b e = cc
going_bind broken f b e = cc
