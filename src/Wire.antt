-- ===== src/Wire.antt =====
-- LowLatencyProtocols/ib_functions.c: the form in which a gid travels between the hosts, and the
-- table of MTU sizes.
pub mod RoundTrip
pub mod Tests
use mathlib.Core.List.{reverse}
use network_optimization.Prelude.{
  ℕ, zero, suc, ◌+◌, ◌-◌, ◌*◌, ◌/◌, ◌%◌, Option, none, some, List, [], ◌∷◌, ◌++◌, Bool, true, false,
  ◌==◌, ◌&&◌, leb, ltb, if◌then◌else◌, take, drop,
}
use network_optimization.Prelude.Strings.{◌>>=◌, le_bytes, le_num, swap_bytes}

pub data Mtu : Type 0 where
  mtu_256 mtu_512 mtu_1024 mtu_2048 mtu_4096 : Mtu

-- `none` is the -1 for every other size.
unfoldable pub pp_mtu_to_enum : ℕ → Option Mtu
pp_mtu_to_enum mtu =
    if mtu == 256
    then some mtu_256
    else if mtu == 512
    then some mtu_512
    else if mtu == 1024
    then some mtu_1024
    else if mtu == 2048
    then some mtu_2048
    else if mtu == 4096
    then some mtu_4096
    else none

-- `%x` of one digit.
unfoldable pub hex_digit : ℕ → ℕ
hex_digit d = if ltb d 10 then 48 + d else 87 + d

-- `%08x`: the eight hexadecimal digits of a 32-bit number, lowest first.
unfoldable pub hex_digits : ℕ → ℕ → List ℕ
hex_digits zero x = []
hex_digits (suc n) x = hex_digit (x % 16) ∷ hex_digits n (x / 16)

-- A digit as `sscanf` reads it, in either case.
unfoldable pub digit_value : ℕ → Option ℕ
digit_value c =
    if leb 48 c && leb c 57
    then some (c - 48)
    else if leb 97 c && leb c 102
    then some (c - 87)
    else if leb 65 c && leb c 70
    then some (c - 55)
    else none

-- The number of digits that stand lowest first; other characters are outside this model.
unfoldable pub hex_value : List ℕ → Option ℕ
hex_value [] = some 0
hex_value (c ∷ cs) = do d ← digit_value c; v ← hex_value cs; some (d + 16 * v)

-- So many words of four bytes, each in network order and printed.
unfoldable pub print_words : ℕ → List ℕ → List ℕ
print_words zero raw = []
print_words (suc n) raw =
    reverse (hex_digits 8 (swap_bytes 4 (le_num (take 4 raw)))) ++ print_words n (drop 4 raw)

-- Eight characters at a time give four bytes.
unfoldable pub read_words : ℕ → List ℕ → Option (List ℕ)
read_words zero wgid = some []
read_words (suc n) wgid = do
  v ← hex_value (reverse (take 8 wgid))
  rest ← read_words n (drop 8 wgid)
  some (le_bytes 4 (swap_bytes 4 v) ++ rest)

-- `wgid` without its NUL.
unfoldable pub gid_to_wire_gid : List ℕ → List ℕ
gid_to_wire_gid raw = print_words 4 raw

unfoldable pub wire_gid_to_gid : List ℕ → Option (List ℕ)
wire_gid_to_gid wgid = read_words 4 wgid
