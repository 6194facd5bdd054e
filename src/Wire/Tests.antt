-- ===== src/Wire/Tests.antt =====
-- One gid on its way.
use network_optimization.Prelude.{ℕ, ◌≡◌, refl, some, List, [], ◌∷◌, arith}
use network_optimization.Prelude.Strings.{AllBytes}
use network_optimization.Wire.{gid_to_wire_gid, wire_gid_to_gid}
use network_optimization.Wire.RoundTrip.{wire_gid_to_gid-gid_to_wire_gid}

abbrev gid : List ℕ
gid = 254 ∷ 128 ∷ 0 ∷ 0 ∷ 0 ∷ 0 ∷ 0 ∷ 0 ∷ 2 ∷ 17 ∷ 34 ∷ 255 ∷ 254 ∷ 51 ∷ 68 ∷ 85 ∷ []

gid-AllBytes : AllBytes gid
gid-AllBytes = ground arith

wire_gid_to_gid-gid_to_wire_gid_example : wire_gid_to_gid (gid_to_wire_gid gid) ≡ some gid
wire_gid_to_gid-gid_to_wire_gid_example = wire_gid_to_gid-gid_to_wire_gid gid refl gid-AllBytes
