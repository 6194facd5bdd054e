-- ===== src/Template/Options.antt =====
-- Optimization/bw_template.c: the command line, and the choice of the device. Splitting the arguments
-- into options is the library's, and so is `strtol`, whose `long` becomes an `int` here. A size, a
-- depth or a count that is negative as an `int` is outside the model (`broken`).
use network_optimization.Prelude.{
  ℕ, suc, ◌+◌, ◌-◌, ◌%◌, ◌^◌, Option, none, some, List, [], ◌∷◌, Bool, true, false, leb, ltb,
  if◌then◌else◌,
}
use network_optimization.Prelude.Int.{ℤ, pos, negsuc}
use network_optimization.Prelude.Strings.{same_string}
use network_optimization.Wire.{Mtu, mtu_4096, pp_mtu_to_enum}
use network_optimization.Template.Attempt.{Attempt, going, gave_up, broken, ◌>>=◌, unless_null}

-- What `getopt_long` returns, with the `long` or the text of `optarg`; `unknown` for all else.
pub data Opt : Type 0 where
  opt_port opt_ib_port opt_gid_idx opt_size opt_mtu opt_rx_depth opt_iters opt_sl : ℤ → Opt
  opt_ib_dev : List ℕ → Opt
  opt_events : Opt
  unknown : Opt

pub record Options : Type 0 where
  pub port : ℤ
  pub ib_devname : Option (List ℕ)
  pub ib_port : ℤ
  pub size : ℕ
  pub mtu : Mtu
  pub rx_depth : ℕ
  pub tx_depth : ℕ
  pub iters : ℕ
  pub sl : ℕ
  pub use_event : ℕ
  pub gidx : ℤ
  pub rdma_write_mr_size : ℕ

abbrev pub defaults : Options
defaults = record {
  port = pos 12345;
  ib_devname = none;
  ib_port = pos 1;
  size = 1;
  mtu = mtu_4096;
  rx_depth = 5000;
  tx_depth = 4800;
  iters = 5000;
  sl = 0;
  use_event = 0;
  gidx = negsuc 0;
  rdma_write_mr_size = 1048576;
}

-- The low 32 bits of a `long`.
abbrev low_word : ℤ → ℕ
low_word (pos n) = n % 2 ^ 32
low_word (negsuc n) = 2 ^ 32 - 1 - n % 2 ^ 32

-- A `long` that is assigned to an `int`.
abbrev pub to_int : ℤ → ℤ
to_int z = let m = low_word z in if ltb m (2 ^ 31) then pos m else negsuc (2 ^ 32 - 1 - m)

-- Its value where that is not negative.
abbrev pub natural : ℤ → Attempt ℕ
natural (pos n) = going n
natural (negsuc n) = broken

-- `port < 0 || port > 65535`
abbrev is_port : ℤ → Bool
is_port (pos n) = leb n 65535
is_port (negsuc n) = false

abbrev is_natural : ℤ → Bool
is_natural (pos n) = true
is_natural (negsuc n) = false

-- `mtu < 0` holds only if the compiler makes the enumeration signed; if not, the code goes on with a
-- value that is no MTU.
abbrev pub with_mtu : Bool → Options → Option Mtu → Attempt Options
with_mtu enum_is_signed o none = if enum_is_signed then gave_up else broken
with_mtu enum_is_signed o (some mtu) = going (record o { mtu = mtu })

-- No MTU is negative.
abbrev pub mtu_of : ℤ → Option Mtu
mtu_of (pos n) = pp_mtu_to_enum n
mtu_of (negsuc n) = none

-- The `switch` on one option; the usage ends with status 1. Of `sl` only the lowest 8 bits are used,
-- so its sign does not matter.
unfoldable pub take_option : Bool → Options → Opt → Attempt Options
take_option enum_is_signed o (opt_port p) =
    if is_port (to_int p) then going (record o { port = to_int p }) else gave_up
take_option enum_is_signed o (opt_ib_dev name) = going (record o { ib_devname = some name })
take_option enum_is_signed o (opt_ib_port p) =
    if is_natural (to_int p) then going (record o { ib_port = to_int p }) else gave_up
take_option enum_is_signed o (opt_size z) = do n ← natural (to_int z); going (record o { size = n })
take_option enum_is_signed o (opt_mtu z) = with_mtu enum_is_signed o (mtu_of (to_int z))
take_option enum_is_signed o (opt_rx_depth z) = do
  n ← natural (to_int z)
  going (record o { rx_depth = n })
take_option enum_is_signed o (opt_iters z) = do
  n ← natural (to_int z)
  going (record o { iters = n })
take_option enum_is_signed o (opt_sl z) = going (record o { sl = low_word z })
take_option enum_is_signed o opt_events = going (record o { use_event = suc o.use_event })
take_option enum_is_signed o (opt_gid_idx n) = going (record o { gidx = to_int n })
take_option enum_is_signed o unknown = gave_up

unfoldable pub parse_options : Bool → Options → List Opt → Attempt Options
parse_options enum_is_signed o [] = going o
parse_options enum_is_signed o (x ∷ xs) = do
  o' ← take_option enum_is_signed o x
  parse_options enum_is_signed o' xs

-- Whether `servername` is set, from the arguments behind the options. Without one it is never
-- assigned; `leftover` tells whether what stands there is other than NULL.
unfoldable pub has_servername : Bool → List (List ℕ) → Attempt Bool
has_servername leftover [] = going leftover
has_servername leftover (name ∷ []) = going true
has_servername leftover (name ∷ other ∷ names) = gave_up

-- The first device with the name; its index.
unfoldable pub find_device : List ℕ → List (List ℕ) → ℕ → Option ℕ
find_device name [] i = none
find_device name (d ∷ ds) i =
    let rest = find_device name ds (i + 1) in if same_string d name then some i else rest

-- `devices` is what `ibv_get_device_list` gives, `none` for NULL.
unfoldable pub choose_device : Option (List (List ℕ)) → Option (List ℕ) → Attempt ℕ
choose_device none name = gave_up
choose_device (some []) none = gave_up
choose_device (some (d ∷ ds)) none = going 0
choose_device (some ds) (some name) = unless_null (find_device name ds 0)
