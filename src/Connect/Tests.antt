-- ===== src/Connect/Tests.antt =====
-- Two hosts that connect.
use network_optimization.Prelude.{refl, [], ◌∷◌}
use network_optimization.Wire.{mtu_2048}
use network_optimization.Connect.{PingpongDest, pp_connect_ctx}
use network_optimization.Connect.Laws.{Agree, pp_connect_ctx-Agree}

abbrev host_a : PingpongDest
host_a = record { lid = 3; qpn = 40; psn = 111; gid = []; interface_id = 0 }

abbrev host_b : PingpongDest
host_b = record { lid = 4; qpn = 50; psn = 222; gid = 1 ∷ []; interface_id = 1 }

pp_connect_ctx-Agree_example :
    Agree
      (pp_connect_ctx (λ c. 0) 1 111 mtu_2048 0 host_b 0).1
      (pp_connect_ctx (λ c. 0) 1 222 mtu_2048 0 host_a 0).1
unfolding pp_connect_ctx
pp_connect_ctx-Agree_example =
    pp_connect_ctx-Agree (λ c. 0) (λ c. 0) 1 1 0 0 0 0 mtu_2048 host_a host_b refl refl
