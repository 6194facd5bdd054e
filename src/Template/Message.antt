-- ===== src/Template/Message.antt =====
-- Optimization/bw_template.c: a destination with the address and the remote key of a region, as it
-- is printed and read. The functions on gids and numbers are the same as in ib_functions.c.
use mathlib.Core.List.{reverse}
use network_optimization.Prelude.{
  ℕ, ◌+◌, ◌^◌, ◌≤◌, ◌<◌, ◌≡◌, refl, sym, ap, ◌∙◌, Option, none, some, List, [], ◌∷◌, ◌++◌,
  append_assoc, length, length-append, drop, leb, if◌then◌else◌, arith,
}
use network_optimization.Prelude.Strings.{◌>>=◌, le_num, AllBytes}
use network_optimization.Verbs.Swap.{length-reverse}
use network_optimization.Wire.{gid_to_wire_gid}
use network_optimization.Wire.RoundTrip.{length-hex_digits}
use network_optimization.Connect.{PingpongDest}
use network_optimization.Exchange.{
  hex_pad, print_hex, scan_below, scan_hex, scan_colon, scan_gid, dest_of,
}
use network_optimization.Exchange.Digits.{
  hex_pad-hex_digits, scan_below-hex_pad, scan_hex-print_hex, length-gid_to_wire_gid,
  scan_gid-gid_to_wire_gid,
}

-- `struct pingpong_dest` of this program; `host` has the fields that the other one has too.
pub record BufferDest : Type 0 where
  pub host : PingpongDest
  pub buf_va : ℕ
  pub buf_rkey : ℕ

-- `sizeof "0000:000000:000000:0000000000000000:00000000:00000000000000000000000000000000"`
abbrev pub msg_size : ℕ
msg_size = 78

-- `%016lx`
unfoldable pub print_long : ℕ → ℕ → List ℕ
print_long w x = reverse (hex_pad 16 w x)

-- What follows the psn: `:%016lx:%08x:%s`.
unfoldable pub region_text : BufferDest → List ℕ
region_text d =
    58 ∷ print_long 16 d.buf_va
    ++ (58 ∷ print_hex 8 d.buf_rkey ++ (58 ∷ gid_to_wire_gid d.host.gid))

-- `%04x:%06x:%06x` and the rest
unfoldable pub dest_text : BufferDest → List ℕ
dest_text d =
    print_hex 4 d.host.lid
    ++ (58 ∷ print_hex 6 d.host.qpn ++ (58 ∷ print_hex 6 d.host.psn ++ region_text d))

-- The `sprintf` into `msg`; `none` is a write behind its end.
unfoldable pub print_dest : BufferDest → Option (List ℕ)
print_dest d =
    if leb (length (dest_text d) + 1) msg_size then some (dest_text d ++ (0 ∷ [])) else none

-- `%lx`
unfoldable pub scan_long : List ℕ → Option (ℕ × List ℕ)
scan_long = scan_below (2 ^ 64)

-- What follows the psn.
unfoldable pub read_region : ℕ → ℕ → ℕ → List ℕ → Option BufferDest
read_region lid qpn psn msg = do
  msg1 ← scan_colon msg
  (buf_va, msg2) ← scan_long msg1
  msg3 ← scan_colon msg2
  (buf_rkey, msg4) ← scan_hex msg3
  msg5 ← scan_colon msg4
  gid ← scan_gid msg5
  some (record { host = dest_of lid qpn psn gid; buf_va = buf_va; buf_rkey = buf_rkey })

-- The `sscanf` of `msg` and the conversion of the gid.
unfoldable pub read_dest : List ℕ → Option BufferDest
read_dest msg = do
  (lid, msg1) ← scan_hex msg
  msg2 ← scan_colon msg1
  (qpn, msg3) ← scan_hex msg2
  msg4 ← scan_colon msg3
  (psn, msg5) ← scan_hex msg4
  read_region lid qpn psn msg5

-- What a host's own destination is: numbers in range, a gid of sixteen bytes, and its second half.
pub record IsDest (d : BufferDest) : Type 0 where
  pub lid_fits : d.host.lid < 2 ^ 16
  pub qpn_fits : d.host.qpn < 2 ^ 24
  pub psn_fits : d.host.psn < 2 ^ 24
  pub va_fits : d.buf_va < 2 ^ 64
  pub rkey_fits : d.buf_rkey < 2 ^ 32
  pub gid_length : length d.host.gid ≡ 16
  pub gid_bytes : AllBytes d.host.gid
  pub second_half : d.host.interface_id ≡ le_num (drop 8 d.host.gid)

length-digits : (n w x : ℕ) → w ≤ n → x < 16 ^ w → length (reverse (hex_pad n w x)) ≡ w
length-digits n w x le h =
    length-reverse (hex_pad n w x)
    ∙ ap length (hex_pad-hex_digits n w x le h)
    ∙ length-hex_digits w x

length-dest_text : (d : BufferDest) → IsDest d → length (dest_text d) ≡ 77
unfolding dest_text region_text print_hex print_long
length-dest_text d w =
    let gid = 58 ∷ gid_to_wire_gid d.host.gid in
    let rkey = 58 ∷ print_hex 8 d.buf_rkey ++ gid in
    omega (
      arith,
      length-append (print_hex 4 d.host.lid)
          (58 ∷ print_hex 6 d.host.qpn ++ (58 ∷ print_hex 6 d.host.psn ++ region_text d)),
      length-append (print_hex 6 d.host.qpn) (58 ∷ print_hex 6 d.host.psn ++ region_text d),
      length-append (print_hex 6 d.host.psn) (region_text d),
      length-append (print_long 16 d.buf_va) rkey,
      length-append (print_hex 8 d.buf_rkey) gid,
      length-gid_to_wire_gid d.host.gid,
      length-digits 8 4 d.host.lid (omega arith) (omega (arith, w.lid_fits)),
      length-digits 8 6 d.host.qpn (omega arith) (omega (arith, w.qpn_fits)),
      length-digits 8 6 d.host.psn (omega arith) (omega (arith, w.psn_fits)),
      length-digits 16 16 d.buf_va (omega arith) (omega (arith, w.va_fits)),
      length-digits 8 8 d.buf_rkey (omega arith) (omega (arith, w.rkey_fits)),
    )

read_region-region_text :
    (d : BufferDest)
    → IsDest d
    → read_region d.host.lid d.host.qpn d.host.psn (region_text d ++ (0 ∷ [])) ≡ some d
unfolding read_region region_text scan_colon scan_long print_long
read_region-region_text d w =
    let end = gid_to_wire_gid d.host.gid ++ (0 ∷ []) in
    let rkey = print_hex 8 d.buf_rkey ++ (58 ∷ end) in
    rw
      (
        append_assoc (print_long 16 d.buf_va)
            (58 ∷ print_hex 8 d.buf_rkey ++ (58 ∷ gid_to_wire_gid d.host.gid)) (0 ∷ []),
        append_assoc (print_hex 8 d.buf_rkey) (58 ∷ gid_to_wire_gid d.host.gid) (0 ∷ []),
        scan_below-hex_pad (2 ^ 64) 16 16 d.buf_va rkey (omega arith) (omega arith)
            (omega (arith, w.va_fits)) w.va_fits,
        scan_hex-print_hex 8 d.buf_rkey end (omega arith) (omega arith) (omega (arith, w.rkey_fits))
            (omega arith),
        scan_gid-gid_to_wire_gid d.host.gid w.gid_length w.gid_bytes,
      )
      (ap (λ i. some (record d { host = record d.host { interface_id = i } })) (sym w.second_half))

-- The psn ends where the region begins.
scan_psn :
    (d : BufferDest)
    → IsDest d
    → scan_hex (print_hex 6 d.host.psn ++ (region_text d ++ (0 ∷ [])))
      ≡ some (d.host.psn, region_text d ++ (0 ∷ []))
unfolding region_text
scan_psn d w =
    scan_hex-print_hex 6 d.host.psn _ (omega arith) (omega arith) (omega (arith, w.psn_fits))
      (omega arith)

-- A destination in range is printed into a message of 78 bytes, from which the other host reads the
-- same destination.
pub read_dest-print_dest :
    (d : BufferDest)
    → IsDest d
    → (msg : List ℕ) × (print_dest d ≡ some msg)
      × (length msg ≡ msg_size)
      × (read_dest msg ≡ some d)
unfolding read_dest dest_text scan_colon print_dest
read_dest-print_dest d w =
    let long = length-dest_text d w in
    let end = region_text d ++ (0 ∷ []) in
    let part2 = print_hex 6 d.host.psn ++ end in
    (
      dest_text d ++ (0 ∷ []),
      rw long refl,
      omega (arith, long, length-append (dest_text d) (0 ∷ [])),
      rw
          (
            append_assoc (print_hex 4 d.host.lid)
                (58 ∷ print_hex 6 d.host.qpn ++ (58 ∷ print_hex 6 d.host.psn ++ region_text d))
                (0 ∷ []),
            append_assoc (print_hex 6 d.host.qpn) (58 ∷ print_hex 6 d.host.psn ++ region_text d)
                (0 ∷ []),
            append_assoc (print_hex 6 d.host.psn) (region_text d) (0 ∷ []),
            scan_hex-print_hex 4 d.host.lid (print_hex 6 d.host.qpn ++ (58 ∷ part2)) (omega arith)
                (omega arith) (omega (arith, w.lid_fits)) (omega arith),
            scan_hex-print_hex 6 d.host.qpn part2 (omega arith) (omega arith)
                (omega (arith, w.qpn_fits)) (omega arith),
            scan_psn d w,
          )
          (read_region-region_text d w),
    )
