-- ===== src/Verbs/Swap.antt =====
-- Byte order: swapping twice gives the number back.
use mathlib.Core.List.{reverse, reverse-reverse, reverse-cons}
use network_optimization.Prelude.{
  ℕ, ◌^◌, ◌<◌, ◌≡◌, refl, ap, ◌∙◌, List, [], ◌∷◌, length, length-append, arith,
}
use network_optimization.Prelude.Strings.{
  le_bytes, swap_bytes, length-le_bytes, AllBytes, le_bytes-AllBytes, le_num-le_bytes,
  le_bytes-le_num, AllBytes-append, le_num-lt,
}

pub length-reverse {ℓ} : {A : Type ℓ} (xs : List A) → length (reverse xs) ≡ length xs
length-reverse [] = refl
length-reverse (x ∷ xs) =
    omega
      (arith, ap length (reverse-cons x xs), length-append (reverse xs) (x ∷ []), length-reverse xs)

AllBytes-reverse : (bs : List ℕ) → AllBytes bs → AllBytes (reverse bs)
AllBytes-reverse [] h = tt
AllBytes-reverse (b ∷ bs) (hb, h) =
    rw (reverse-cons b bs) (AllBytes-append (reverse bs) (b ∷ []) (AllBytes-reverse bs h) (hb, tt))

length-reversed : (n x : ℕ) → length (reverse (le_bytes n x)) ≡ n
length-reversed n x = length-reverse (le_bytes n x) ∙ length-le_bytes n x

-- The two ends agree on an address and a key: what one has put into network order, the other gets
-- back, at every width, and the swapped number has the same width.
pub swap_bytes-swap_bytes :
    (n x : ℕ) → x < 256 ^ n → (swap_bytes n (swap_bytes n x) ≡ x) × (swap_bytes n x < 256 ^ n)
unfolding swap_bytes
swap_bytes-swap_bytes n x h =
    let bs : List ℕ = reverse (le_bytes n x) in
    let all : AllBytes bs = AllBytes-reverse (le_bytes n x) (le_bytes-AllBytes n x) in
    (
      rw (le_bytes-le_num n bs (length-reversed n x) all, reverse-reverse (le_bytes n x))
          (le_num-le_bytes n x h),
      le_num-lt n bs (length-reversed n x) all,
    )

pub swap_bytes-lt : (n x : ℕ) → swap_bytes n x < 256 ^ n
unfolding swap_bytes
swap_bytes-lt n x =
    let bs : List ℕ = reverse (le_bytes n x) in
    le_num-lt n bs (length-reversed n x) (AllBytes-reverse (le_bytes n x) (le_bytes-AllBytes n x))
