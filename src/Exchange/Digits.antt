-- ===== src/Exchange/Digits.antt =====
-- The digits of a printed number or gid, and their reading.
use mathlib.Core.List.{reverse, reverse_aux}
use native.Mathlib.Nat.{pow-suc}
use network_optimization.Prelude.{
  ℕ, zero, suc, ◌+◌, ◌*◌, ◌/◌, ◌%◌, ◌^◌, ◌≤◌, ◌<◌, ◌≡◌, refl, ap, ◌∙◌, some, List, [], ◌∷◌, ◌++◌,
  length, length-append, take, drop, true, false, ◌==◌, ltb, arith,
}
use network_optimization.Prelude.Strings.{le_num, AllBytes, swap_bytes}
use network_optimization.Verbs.Swap.{length-reverse}
use network_optimization.Wire.{hex_digit, hex_digits, digit_value, gid_to_wire_gid, print_words}
use network_optimization.Wire.RoundTrip.{
  digit_value-hex_digit, length-hex_digits, wire_gid_to_gid-gid_to_wire_gid,
}
use network_optimization.Exchange.{
  hex_pad, print_hex, is_blank, skip_blanks, hex_run, has_digit, scan_below, scan_hex, word,
  scan_gid,
}

-- A number below 16 ^ w has exactly its `w` digits.
pub hex_pad-hex_digits : (n w x : ℕ) → w ≤ n → x < 16 ^ w → hex_pad n w x ≡ hex_digits w x
unfolding hex_pad hex_digits
hex_pad-hex_digits zero zero x le h = refl
hex_pad-hex_digits zero (suc w) x le h = absurd (omega arith)
hex_pad-hex_digits (suc n) zero x le h = let empty : x ≡ 0 = omega arith in rw empty refl
hex_pad-hex_digits (suc n) (suc w) x le h =
    ap (λ ds. hex_digit (x % 16) ∷ ds)
      (hex_pad-hex_digits n w (x / 16) (omega arith) (omega (arith, pow-suc 16 w)))

reverse_aux-append {ℓ} :
    {A : Type ℓ} (xs ys zs : List A) → reverse_aux xs ys ++ zs ≡ reverse_aux xs (ys ++ zs)
reverse_aux-append [] ys zs = refl
reverse_aux-append (x ∷ xs) ys zs = reverse_aux-append xs (x ∷ ys) zs

hex_run-digit :
    (v c d : ℕ) (cs : List ℕ)
    → digit_value c ≡ some d
    → hex_run v (c ∷ cs) ≡ hex_run (16 * v + d) cs
unfolding hex_run
hex_run-digit v c d cs e = rw (hex_run, e) refl

hex_run-digits :
    (w x : ℕ) (rest : List ℕ)
    → x < 16 ^ w
    → hex_run 0 (reverse_aux (hex_digits w x) rest) ≡ hex_run x rest
unfolding hex_run hex_digits
hex_run-digits zero x rest h = let empty : x ≡ 0 = omega arith in rw empty refl
hex_run-digits (suc w) x rest h =
    let whole : 16 * (x / 16) + x % 16 ≡ x = omega arith in
    hex_run-digits w (x / 16) (hex_digit (x % 16) ∷ rest) (omega (arith, pow-suc 16 w))
    ∙ hex_run-digit (x / 16) (hex_digit (x % 16)) (x % 16) rest
        (digit_value-hex_digit (x % 16) (omega arith))
    ∙ ap (λ v. hex_run v rest) whole

-- Every character is a digit.
abbrev pub AllDigits : List ℕ → Type 0
AllDigits [] = Unit {0}
AllDigits (c ∷ cs) = ((d : ℕ) × (digit_value c ≡ some d)) × AllDigits cs

digit_is_plain : (c d : ℕ) → digit_value c ≡ some d → (is_blank c ≡ false) × ((c == 0) ≡ false)
unfolding digit_value
digit_is_plain c d e = ground arith

AllDigits-hex_digits : (w x : ℕ) → AllDigits (hex_digits w x)
unfolding hex_digits
AllDigits-hex_digits zero x = tt
AllDigits-hex_digits (suc w) x =
    ((x % 16, digit_value-hex_digit (x % 16) (omega arith)), AllDigits-hex_digits w (x / 16))

AllDigits-reverse_aux :
    (xs ys : List ℕ) → AllDigits xs → AllDigits ys → AllDigits (reverse_aux xs ys)
AllDigits-reverse_aux [] ys h h' = h'
AllDigits-reverse_aux (x ∷ xs) ys (d, h) h' = AllDigits-reverse_aux xs (x ∷ ys) h (d, h')

AllDigits-append : (xs ys : List ℕ) → AllDigits xs → AllDigits ys → AllDigits (xs ++ ys)
AllDigits-append [] ys h h' = h'
AllDigits-append (x ∷ xs) ys (d, h) h' = (d, AllDigits-append xs ys h h')

-- A list that starts with a digit.
first_digit :
    (xs rest : List ℕ)
    → AllDigits xs
    → 0 < length xs
    → (skip_blanks (xs ++ rest) ≡ xs ++ rest) × (has_digit (xs ++ rest) ≡ true)
unfolding skip_blanks has_digit
first_digit [] rest h l = absurd (omega arith)
first_digit (c ∷ xs) rest ((d, e), h) l = (rw (digit_is_plain c d e).0 refl, rw (has_digit, e) refl)

-- The print of a number in range is read back, and the colon behind it stops the reading.
pub scan_below-hex_pad :
    (bound n w x : ℕ) (rest : List ℕ)
    → 0 < w
    → w ≤ n
    → x < 16 ^ w
    → x < bound
    → scan_below bound (reverse (hex_pad n w x) ++ (58 ∷ rest)) ≡ some (x, 58 ∷ rest)
unfolding scan_below hex_run digit_value
scan_below-hex_pad bound n w x rest pos_w le h small =
    let digits = hex_digits w x in
    let all : AllDigits (reverse_aux digits []) =
      AllDigits-reverse_aux digits [] (AllDigits-hex_digits w x) tt in
    let long : length (reverse_aux digits []) ≡ w = length-reverse digits ∙ length-hex_digits w x in
    let first = first_digit (reverse_aux digits []) (58 ∷ rest) all (omega (arith, long)) in
    let run : hex_run 0 (reverse_aux digits [] ++ (58 ∷ rest)) ≡ (x, 58 ∷ rest) =
      ap (hex_run 0) (reverse_aux-append digits [] (58 ∷ rest))
      ∙ hex_run-digits w x (58 ∷ rest) h in
    let fits : ltb x bound ≡ true = ground (arith, small) in
    rw (hex_pad-hex_digits n w x le h, first.0, first.1, run, fits) refl

pub scan_hex-print_hex :
    (w x : ℕ) (rest : List ℕ)
    → 0 < w
    → w ≤ 8
    → x < 16 ^ w
    → 16 ^ w ≤ 2 ^ 32
    → scan_hex (print_hex w x ++ (58 ∷ rest)) ≡ some (x, 58 ∷ rest)
unfolding scan_hex print_hex
scan_hex-print_hex w x rest pos_w le h small =
    scan_below-hex_pad (2 ^ 32) 8 w x rest pos_w le h (omega (arith, h, small))

word-digits : (xs : List ℕ) → AllDigits xs → word (xs ++ (0 ∷ [])) ≡ some xs
unfolding word
word-digits [] h = refl
word-digits (c ∷ xs) ((d, e), h) =
    rw ((digit_is_plain c d e).1, (digit_is_plain c d e).0, word-digits xs h) refl

AllDigits-print_words : (n : ℕ) (raw : List ℕ) → AllDigits (print_words n raw)
unfolding print_words
AllDigits-print_words zero raw = tt
AllDigits-print_words (suc n) raw =
    let digits = hex_digits 8 (swap_bytes 4 (le_num (take 4 raw))) in
    AllDigits-append (reverse_aux digits []) (print_words n (drop 4 raw))
      (AllDigits-reverse_aux digits [] (AllDigits-hex_digits 8 (swap_bytes 4 (le_num (take 4 raw))))
        tt)
      (AllDigits-print_words n (drop 4 raw))

length-print_words : (n : ℕ) (raw : List ℕ) → length (print_words n raw) ≡ 8 * n
unfolding print_words
length-print_words zero raw = refl
length-print_words (suc n) raw =
    let x = swap_bytes 4 (le_num (take 4 raw)) in
    let digits = hex_digits 8 x in
    omega (
      arith,
      length-append (reverse_aux digits []) (print_words n (drop 4 raw)),
      length-reverse digits,
      length-hex_digits 8 x,
      length-print_words n (drop 4 raw),
    )

pub length-gid_to_wire_gid : (raw : List ℕ) → length (gid_to_wire_gid raw) ≡ 32
unfolding gid_to_wire_gid
length-gid_to_wire_gid raw = length-print_words 4 raw

pub scan_gid-gid_to_wire_gid :
    (raw : List ℕ)
    → length raw ≡ 16
    → AllBytes raw
    → scan_gid (gid_to_wire_gid raw ++ (0 ∷ [])) ≡ some raw
unfolding scan_gid gid_to_wire_gid
scan_gid-gid_to_wire_gid raw e h =
    let all = AllDigits-print_words 4 raw in
    let first =
      first_digit (print_words 4 raw) (0 ∷ []) all (omega (arith, length-gid_to_wire_gid raw)) in
    rw
      (
        first.0,
        word-digits (print_words 4 raw) all,
        length-print_words 4 raw,
        wire_gid_to_gid-gid_to_wire_gid raw e h,
      )
      refl
