-- ===== src/Exchange/Printing.antt =====
-- The message of a destination: printing and reading.
use native.Mathlib.Nat.{pow-suc}
use network_optimization.Prelude.{
  ℕ, zero, suc, ◌+◌, ◌/◌, ◌^◌, ◌≤◌, ◌<◌, ◌≡◌, refl, sym, ap, ◌∙◌, inl, inr, ◌⊎◌, none, some, List,
  [], ◌∷◌, ◌++◌, append_assoc, length, length-append, drop, ◌&&◌, Bool, true, false, leb, ltb,
  arith,
}
use network_optimization.Prelude.Strings.{le_num, AllBytes}
use network_optimization.Verbs.Swap.{length-reverse}
use network_optimization.Wire.{gid_to_wire_gid}
use network_optimization.Wire.RoundTrip.{length-hex_digits}
use network_optimization.Connect.{PingpongDest}
use network_optimization.Exchange.{
  msg_size, hex_pad, print_hex, dest_text, print_dest, scan_colon, read_dest,
}
use network_optimization.Exchange.Digits.{
  hex_pad-hex_digits, scan_hex-print_hex, length-gid_to_wire_gid, scan_gid-gid_to_wire_gid,
}

-- The number of characters tells whether a number is in range.
hex_pad-long : (n w x : ℕ) → w < n → 16 ^ w ≤ x → w < length (hex_pad n w x)
unfolding hex_pad
hex_pad-long zero w x lt h = absurd (omega arith)
hex_pad-long (suc n) zero x lt h = ground arith
hex_pad-long (suc n) (suc w) x lt h =
    omega (arith, hex_pad-long n w (x / 16) (omega arith) (omega (arith, pow-suc 16 w)))

hex_pad-least : (n w x : ℕ) → w ≤ n → w ≤ length (hex_pad n w x)
unfolding hex_pad
hex_pad-least zero w x le = omega arith
hex_pad-least (suc n) zero x le = omega arith
hex_pad-least (suc n) (suc w) x le = omega (arith, hex_pad-least n w (x / 16) (omega arith))

length-print_hex :
    (w x : ℕ)
    → w < 8
    → (w ≤ length (print_hex w x))
      × (x < 16 ^ w → length (print_hex w x) ≡ w)
      × (16 ^ w ≤ x → w < length (print_hex w x))
unfolding print_hex
length-print_hex w x lt =
    let same = length-reverse (hex_pad 8 w x) in
    (
      omega (arith, same, hex_pad-least 8 w x (omega arith)),
      λ h. same ∙ ap length (hex_pad-hex_digits 8 w x (omega arith) h) ∙ length-hex_digits w x,
      λ h. omega (arith, same, hex_pad-long 8 w x lt h),
    )

length-dest_text :
    (d : PingpongDest)
    → length (dest_text d)
      ≡ length (print_hex 4 d.lid) + length (print_hex 6 d.qpn) + length (print_hex 6 d.psn) + 35
unfolding dest_text
length-dest_text d = omega (
  arith,
  length-append (print_hex 4 d.lid)
      (58 ∷ print_hex 6 d.qpn ++ (58 ∷ print_hex 6 d.psn ++ (58 ∷ gid_to_wire_gid d.gid))),
  length-append (print_hex 6 d.qpn) (58 ∷ print_hex 6 d.psn ++ (58 ∷ gid_to_wire_gid d.gid)),
  length-append (print_hex 6 d.psn) (58 ∷ gid_to_wire_gid d.gid),
  length-gid_to_wire_gid d.gid,
)

-- The numbers have the sizes that the form of the message has room for.
abbrev pub fits : PingpongDest → Bool
fits d = ltb d.lid (2 ^ 16) && ltb d.qpn (2 ^ 24) && ltb d.psn (2 ^ 24)

fits-true :
    (d : PingpongDest) → fits d ≡ true → (d.lid < 16 ^ 4) × (d.qpn < 16 ^ 6) × (d.psn < 16 ^ 6)
fits-true d h = ground arith

fits-false :
    (d : PingpongDest) → fits d ≡ false → (16 ^ 4 ≤ d.lid) ⊎ ((16 ^ 6 ≤ d.qpn) ⊎ (16 ^ 6 ≤ d.psn))
fits-false d h = ground arith

length-fits :
    (d : PingpongDest)
    → (fits d ≡ true → length (dest_text d) ≡ 51) × (fits d ≡ false → 51 < length (dest_text d))
length-fits d =
    let whole = length-dest_text d in
    let lid = length-print_hex 4 d.lid (omega arith) in
    let qpn = length-print_hex 6 d.qpn (omega arith) in
    let psn = length-print_hex 6 d.psn (omega arith) in
    (
      λ h. let (l, q, p) = fits-true d h in omega (arith, whole, lid.1 l, qpn.1 q, psn.1 p),
      λ h. elim (fits-false d h) [
        | inl l ↦ omega (arith, whole, lid.2 l, qpn.0, psn.0)
        | inr (inl q) ↦ omega (arith, whole, lid.0, qpn.2 q, psn.0)
        | inr (inr p) ↦ omega (arith, whole, lid.0, qpn.0, psn.2 p)
      ],
    )

-- The message fills `msg` to its last byte if the local id has at most 16 bits and the other two
-- numbers at most 24; if one of them has more, it is written behind the end.
pub print_dest_lem :
    (d : PingpongDest)
    → (fits d ≡ true
        → (print_dest d ≡ some (dest_text d ++ (0 ∷ [])))
          × (length (dest_text d ++ (0 ∷ [])) ≡ msg_size))
      × (fits d ≡ false → print_dest d ≡ none)
unfolding print_dest
print_dest_lem d = (
  λ h.
      let exact = (length-fits d).0 h in
      (rw exact refl, omega (arith, exact, length-append (dest_text d) (0 ∷ []))),
  λ h.
      let long = (length-fits d).1 h in
      let over : leb (length (dest_text d) + 1) msg_size ≡ false = ground (arith, long) in
      rw over refl,
)

-- What a host's own destination is: numbers in range, a gid of sixteen bytes, and its second half.
pub record IsDest (d : PingpongDest) : Type 0 where
  pub in_range : fits d ≡ true
  pub gid_length : length d.gid ≡ 16
  pub gid_bytes : AllBytes d.gid
  pub second_half : d.interface_id ≡ le_num (drop 8 d.gid)

-- Every destination with numbers in range and a gid of sixteen bytes is printed into a message of
-- 52 bytes, from which the other host reads the same destination.
pub read_dest-print_dest :
    (d : PingpongDest)
    → IsDest d
    → (msg : List ℕ) × (print_dest d ≡ some msg)
      × (length msg ≡ msg_size)
      × (read_dest msg ≡ some d)
unfolding read_dest dest_text scan_colon
read_dest-print_dest d w =
    let (e, l) = (print_dest_lem d).0 w.in_range in
    let (lid, qpn, psn) = fits-true d w.in_range in
    let end = gid_to_wire_gid d.gid ++ (0 ∷ []) in
    let part3 = print_hex 6 d.psn ++ (58 ∷ end) in
    let part2 = print_hex 6 d.qpn ++ (58 ∷ part3) in
    (
      dest_text d ++ (0 ∷ []),
      e,
      l,
      rw
          (
            append_assoc (print_hex 4 d.lid)
                (58 ∷ print_hex 6 d.qpn ++ (58 ∷ print_hex 6 d.psn ++ (58 ∷ gid_to_wire_gid d.gid)))
                (0 ∷ []),
            append_assoc (print_hex 6 d.qpn)
                (58 ∷ print_hex 6 d.psn ++ (58 ∷ gid_to_wire_gid d.gid)) (0 ∷ []),
            append_assoc (print_hex 6 d.psn) (58 ∷ gid_to_wire_gid d.gid) (0 ∷ []),
            scan_hex-print_hex 4 d.lid part2 (omega arith) (omega arith) lid (omega arith),
            scan_hex-print_hex 6 d.qpn part3 (omega arith) (omega arith) qpn (omega arith),
            scan_hex-print_hex 6 d.psn end (omega arith) (omega arith) psn (omega arith),
            scan_gid-gid_to_wire_gid d.gid w.gid_length w.gid_bytes,
          )
          (ap
            (λ i.
              some
                (record { lid = d.lid; qpn = d.qpn; psn = d.psn; gid = d.gid; interface_id = i }))
            (sym w.second_half)),
    )
