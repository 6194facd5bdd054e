-- ===== src/Wire/RoundTrip.antt =====
-- A gid survives the way to the other host.
use mathlib.Core.List.{reverse, reverse-reverse}
use native.Mathlib.Nat.{pow-suc}
use network_optimization.Prelude.{
  ℕ, zero, suc, ◌*◌, ◌/◌, ◌%◌, ◌^◌, ◌<◌, ◌≡◌, refl, ap, ◌∙◌, some, List, [], ◌∷◌, ◌++◌, length,
  length-take, length-drop, take, drop, arith,
}
use network_optimization.Prelude.Strings.{le_num, swap_bytes, AllBytes, le_bytes-le_num, le_num-lt}
use network_optimization.Protocol.RoundTrip.{take-length-append, drop-length-append}
use network_optimization.Verbs.Swap.{length-reverse, swap_bytes-swap_bytes}
use network_optimization.Wire.{
  hex_digit, hex_digits, digit_value, hex_value, print_words, read_words, gid_to_wire_gid,
  wire_gid_to_gid,
}

pub digit_value-hex_digit : (d : ℕ) → d < 16 → digit_value (hex_digit d) ≡ some d
unfolding digit_value hex_digit
digit_value-hex_digit d h = ground arith

hex_value-hex_digits : (n x : ℕ) → x < 16 ^ n → hex_value (hex_digits n x) ≡ some x
unfolding hex_value hex_digits
hex_value-hex_digits zero x h = ground arith
hex_value-hex_digits (suc n) x h =
    rw
      (
        digit_value-hex_digit (x % 16) (omega arith),
        hex_value-hex_digits n (x / 16) (omega (arith, pow-suc 16 n)),
      )
      (ap some (omega arith))

pub length-hex_digits : (n x : ℕ) → length (hex_digits n x) ≡ n
unfolding hex_digits
length-hex_digits zero x = refl
length-hex_digits (suc n) x = ap suc (length-hex_digits n (x / 16))

AllBytes-take : (n : ℕ) (bs : List ℕ) → AllBytes bs → AllBytes (take n bs)
AllBytes-take zero bs h = tt
AllBytes-take (suc n) [] h = tt
AllBytes-take (suc n) (b ∷ bs) (hb, h) = (hb, AllBytes-take n bs h)

AllBytes-drop : (n : ℕ) (bs : List ℕ) → AllBytes bs → AllBytes (drop n bs)
AllBytes-drop zero bs h = h
AllBytes-drop (suc n) [] h = tt
AllBytes-drop (suc n) (b ∷ bs) (hb, h) = AllBytes-drop n bs h

take-drop {ℓ} : {A : Type ℓ} (n : ℕ) (xs : List A) → take n xs ++ drop n xs ≡ xs
take-drop zero xs = refl
take-drop (suc n) [] = refl
take-drop (suc n) (x ∷ xs) = ap (λ ys. x ∷ ys) (take-drop n xs)

take-of_length {ℓ} : {A : Type ℓ} (n : ℕ) (xs ys : List A) → length xs ≡ n → take n (xs ++ ys) ≡ xs
take-of_length n xs ys e = rw e at (take-length-append xs ys)

drop-of_length {ℓ} : {A : Type ℓ} (n : ℕ) (xs ys : List A) → length xs ≡ n → drop n (xs ++ ys) ≡ ys
drop-of_length n xs ys e = rw e at (drop-length-append xs ys)

read_words-print_words :
    (n : ℕ) (raw : List ℕ)
    → length raw ≡ 4 * n
    → AllBytes raw
    → read_words n (print_words n raw) ≡ some raw
unfolding read_words print_words
read_words-print_words zero [] e h = refl
read_words-print_words zero (b ∷ raw) e h = absurd (omega arith)
read_words-print_words (suc n) raw e h =
    let word = le_num (take 4 raw) in
    let four : length (take 4 raw) ≡ 4 = omega (arith, length-take 4 raw) in
    let bytes : AllBytes (take 4 raw) = AllBytes-take 4 raw h in
    let (back, below) = swap_bytes-swap_bytes 4 word (le_num-lt 4 (take 4 raw) four bytes) in
    let digits = hex_digits 8 (swap_bytes 4 word) in
    let eight : length (reverse digits) ≡ 8 =
      length-reverse digits ∙ length-hex_digits 8 (swap_bytes 4 word) in
    let rest = print_words n (drop 4 raw) in
    let front : take 8 (reverse digits ++ rest) ≡ reverse digits =
      take-of_length 8 (reverse digits) rest eight in
    let behind : drop 8 (reverse digits ++ rest) ≡ rest =
      drop-of_length 8 (reverse digits) rest eight in
    rw
      (
        front,
        behind,
        reverse-reverse digits,
        hex_value-hex_digits 8 (swap_bytes 4 word) (omega arith),
        back,
        le_bytes-le_num 4 (take 4 raw) four bytes,
        read_words-print_words n (drop 4 raw) (omega (arith, length-drop 4 raw))
            (AllBytes-drop 4 raw h),
      )
      (ap some (take-drop 4 raw))

-- Whatever sixteen bytes a gid has, the receiver of its wire form gets them back.
pub wire_gid_to_gid-gid_to_wire_gid :
    (raw : List ℕ)
    → length raw ≡ 16
    → AllBytes raw
    → wire_gid_to_gid (gid_to_wire_gid raw) ≡ some raw
unfolding wire_gid_to_gid gid_to_wire_gid
wire_gid_to_gid-gid_to_wire_gid raw e h = read_words-print_words 4 raw (omega arith) h
