-- ===== src/Prelude/Strings.antt =====
-- C strings and byte sequences. A byte is a number; memory that can be read from a pointer on is
-- the list of its bytes, and `none` is a read past the end of the object.
use Prim.Native.Nat.{ℕ, zero, suc, ◌+◌, ◌*◌, ◌/◌, ◌%◌, ◌^◌, ◌<◌}
use mathlib.Core.Path.{◌≡◌, refl, ap}
use mathlib.Core.Logic.{◌≢◌, ◌↔◌, inl, inr}
use mathlib.Core.Bool.{Bool, true, false, ◌&&◌}
use mathlib.Core.Option.{Option, none, some}
use mathlib.Core.List.{List, [], ◌∷◌, ◌++◌, reverse}
use native.Mathlib.Nat.{pow-suc}
use native.Mathlib.Omega.{arith}
use network_optimization.Prelude.Tests.{◌==◌, if◌then◌else◌, Bool-cases, Option-cases}
use network_optimization.Prelude.Lists.{length}

infixl 5 ◌>>=◌
abbrev pub ◌>>=◌ {ℓ κ} : {A : Type ℓ} {B : Type κ} → Option A → (A → Option B) → Option B
none >>= f = none
some a >>= f = f a

-- The bytes of the string that starts at the pointer, without its NUL.
unfoldable pub c_string : List ℕ → Option (List ℕ)
c_string [] = none
c_string (b ∷ bs) =
    let rest = c_string bs in if b == 0 then some [] else (rest >>= λ s. some (b ∷ s))

-- `strcmp(a, b) == 0`
unfoldable pub same_string : List ℕ → List ℕ → Bool
same_string [] [] = true
same_string [] (b ∷ bs) = false
same_string (a ∷ as') [] = false
same_string (a ∷ as') (b ∷ bs) = a == b && same_string as' bs

pub same_string_iff : (s t : List ℕ) → (same_string s t ≡ true) ↔ (s ≡ t)
unfolding same_string
same_string_iff [] [] = ground arith
same_string_iff [] (b ∷ bs) = ground arith
same_string_iff (a ∷ as') [] = ground arith
same_string_iff (a ∷ as') (b ∷ bs) = ground (arith, same_string_iff as' bs)

pub same_string_refl : (s : List ℕ) → same_string s s ≡ true
same_string_refl s = (same_string_iff s s).1 refl

pub same_string_ne : (s t : List ℕ) → s ≢ t → same_string s t ≡ false
same_string_ne s t h = ground (arith, same_string_iff s t)

-- No byte of a string is its terminator.
abbrev pub IsText : List ℕ → Type 0
IsText [] = Unit {0}
IsText (b ∷ bs) = (b ≢ 0) × IsText bs

pub c_string-append : (s rest : List ℕ) → IsText s → c_string (s ++ (0 ∷ rest)) ≡ some s
unfolding c_string
c_string-append [] rest h = refl
c_string-append (b ∷ s) rest (hb, hs) = ground (arith, c_string-append s rest hs)

-- Memory that holds a string is its bytes, the NUL, and what lies behind it.
pub terminated :
    (p s : List ℕ) → c_string p ≡ some s → (rest : List ℕ) × (p ≡ s ++ (0 ∷ rest)) × IsText s
unfolding c_string
terminated [] s e = absurd cc
terminated (b ∷ p) s e = elim (Bool-cases (b == 0)) [
  | inl z ↦
      let empty : ◌≡◌ {A = Option (List ℕ)} (some []) (some s) = rw z at e in stop (ground arith) cc
  | inr nz ↦ elim (Option-cases (c_string p)) [
    | inl missing ↦ absurd (cc)
    | inr (t, some_t) ↦
        let whole : ◌≡◌ {A = Option (List ℕ)} (some (b ∷ t)) (some s) = rw (nz, some_t) at e in
        go t (ground arith) (terminated p t some_t) cc
  ]
]
  where
    stop : b ≡ 0 → s ≡ [] → (rest : List ℕ) × (b ∷ p ≡ s ++ (0 ∷ rest)) × IsText s
    stop z e' = (p, rw (e', z), rw e' tt)

    go :
        (t : List ℕ)
        → b ≢ 0
        → ((rest : List ℕ) × (p ≡ t ++ (0 ∷ rest)) × IsText t)
        → s ≡ b ∷ t
        → (rest : List ℕ) × (b ∷ p ≡ s ++ (0 ∷ rest)) × IsText s
    go t nz (rest, e', tx) e'' = (rest, rw (e', e''), rw e'' (nz, tx))

-- Memory with no NUL in reach holds no string.
pub c_string-IsText : (s : List ℕ) → IsText s → c_string s ≡ none
unfolding c_string
c_string-IsText [] h = refl
c_string-IsText (b ∷ s) (hb, hs) = ground (arith, c_string-IsText s hs)

-- An unsigned integer of `n` bytes, lowest first.
unfoldable pub le_bytes : ℕ → ℕ → List ℕ
le_bytes zero x = []
le_bytes (suc n) x = (x % 256) ∷ le_bytes n (x / 256)

-- Reading one of `n` bytes at the pointer.
unfoldable pub le_value : ℕ → List ℕ → Option ℕ
le_value zero bs = some 0
le_value (suc n) [] = none
le_value (suc n) (b ∷ bs) = le_value n bs >>= λ v. some (b + 256 * v)

pub length-le_bytes : (n x : ℕ) → length (le_bytes n x) ≡ n
unfolding le_bytes
length-le_bytes zero x = refl
length-le_bytes (suc n) x = ap suc (length-le_bytes n (x / 256))

pub le_value-le_bytes :
    (n x : ℕ) (rest : List ℕ) → x < 256 ^ n → le_value n (le_bytes n x ++ rest) ≡ some x
unfolding le_bytes le_value
le_value-le_bytes zero x rest h = ground arith
le_value-le_bytes (suc n) x rest h =
    ground (arith, pow-suc 256 n, le_value-le_bytes n (x / 256) rest)

-- The number that bytes stand for, lowest first.
pub le_num : List ℕ → ℕ
le_num [] = 0
le_num (b ∷ bs) = b + 256 * le_num bs

-- `htonl`, `ntohl` and `bswap_64` on a little-endian machine: an integer of `n` bytes, reversed.
unfoldable pub swap_bytes : ℕ → ℕ → ℕ
unfolding le_bytes le_num
swap_bytes n x = le_num (reverse (le_bytes n x))

abbrev pub AllBytes : List ℕ → Type 0
AllBytes [] = Unit {0}
AllBytes (b ∷ bs) = (b < 256) × AllBytes bs

pub AllBytes-append : (xs ys : List ℕ) → AllBytes xs → AllBytes ys → AllBytes (xs ++ ys)
AllBytes-append [] ys hx hy = hy
AllBytes-append (x ∷ xs) ys (h, hx) hy = (h, AllBytes-append xs ys hx hy)

pub le_bytes-AllBytes : (n x : ℕ) → AllBytes (le_bytes n x)
unfolding le_bytes
le_bytes-AllBytes zero x = tt
le_bytes-AllBytes (suc n) x = (omega arith, le_bytes-AllBytes n (x / 256))

pub le_num-le_bytes : (n x : ℕ) → x < 256 ^ n → le_num (le_bytes n x) ≡ x
unfolding le_bytes le_num
le_num-le_bytes zero x h = ground arith
le_num-le_bytes (suc n) x h = ground (arith, pow-suc 256 n, le_num-le_bytes n (x / 256))

pub le_bytes-le_num :
    (n : ℕ) (bs : List ℕ) → length bs ≡ n → AllBytes bs → le_bytes n (le_num bs) ≡ bs
unfolding le_bytes le_num
le_bytes-le_num zero [] e h = refl
le_bytes-le_num zero (b ∷ bs) e h = absurd (omega arith)
le_bytes-le_num (suc n) [] e h = absurd (omega arith)
le_bytes-le_num (suc n) (b ∷ bs) e (hb, h) =
    let digit : (b + 256 * le_num bs) % 256 ≡ b = omega arith in
    let rest : (b + 256 * le_num bs) / 256 ≡ le_num bs = omega arith in
    rw (digit, rest, le_bytes-le_num n bs (omega arith) h)

pub le_num-lt : (n : ℕ) (bs : List ℕ) → length bs ≡ n → AllBytes bs → le_num bs < 256 ^ n
unfolding le_num
le_num-lt zero [] e h = omega arith
le_num-lt zero (b ∷ bs) e h = absurd (omega arith)
le_num-lt (suc n) [] e h = absurd (omega arith)
le_num-lt (suc n) (b ∷ bs) e (hb, h) = omega (arith, pow-suc 256 n, le_num-lt n bs (omega arith) h)
