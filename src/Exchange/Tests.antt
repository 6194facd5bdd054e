-- ===== src/Exchange/Tests.antt =====
-- Two hosts on one network.
use network_optimization.Prelude.{
  ℕ, ◌+◌, ◌≡◌, refl, none, some, List, [], ◌∷◌, ◌++◌, replicate, length, true, false, arith,
}
use network_optimization.Wire.{mtu_4096, hex_digits, gid_to_wire_gid, print_words}
use network_optimization.Connect.{PingpongDest}
use network_optimization.Exchange.{
  hex_pad, print_hex, dest_text, print_dest, dest_of, Network, connect_loop, done_message, msg_size,
  ClientExchange, client_talk, pp_client_exch_dest, pp_server_exch_dest,
}
use network_optimization.Exchange.Printing.{IsDest, fits, print_dest_lem}
use network_optimization.Exchange.Agree.{IsUp, hears, changes_to, exchange-Agree}

abbrev host_a : PingpongDest
host_a = dest_of 3 40 111 (replicate 16 0)

abbrev host_b : PingpongDest
host_b = dest_of 4 1000 16777215 (replicate 8 0 ++ (18 ∷ replicate 7 255))

-- The first address has no socket, and the second does not answer.
abbrev network : Network
network = record {
  service_printed = true;
  resolved = true;
  addresses =
      record { has_socket = false; succeeds = true }
      ∷ record { has_socket = true; succeeds = false }
      ∷ record { has_socket = true; succeeds = true }
      ∷ [];
  written = some 52;
  incoming = [];
  has_memory = true;
}

network-IsUp : IsUp network
unfolding connect_loop
network-IsUp = record {
  printed = refl;
  found = refl;
  connects = refl;
  writes = refl;
  memory = refl;
}

host_a-IsDest : IsDest host_a
host_a-IsDest = record {
  in_range = refl;
  gid_length = refl;
  gid_bytes = ground arith;
  second_half = refl;
}

host_b-IsDest : IsDest host_b
host_b-IsDest = record {
  in_range = refl;
  gid_length = refl;
  gid_bytes = ground arith;
  second_half = refl;
}

exchange-Agree_example :
    (to_server : List ℕ) × (to_client : List ℕ) × (pp_client_exch_dest
        (hears network to_client)
        host_a
      ≡ some record {
        answer = some host_b;
        wrote = to_server ∷ done_message ∷ [];
        opened = (connect_loop network.addresses 0 0).1;
        closed = (connect_loop network.addresses 0 0).2 + 1;
      })
    × (pp_server_exch_dest (λ c. 0) (hears network to_server) 1 mtu_4096 0 host_b 0
        ≡ some record {
          answer = some host_a;
          wrote = to_client ∷ [];
          changes = changes_to 1 host_b.psn mtu_4096 0 host_a 0;
        })
exchange-Agree_example =
    exchange-Agree (λ c. 0) network network host_a host_b 1 mtu_4096 0 0 (λ c. refl) network-IsUp
      network-IsUp host_a-IsDest host_b-IsDest

-- The answer is cut short: one socket of the two that were opened is closed at the end.
abbrev short_network : Network
short_network = record network { incoming = 48 ∷ [] }

abbrev cut_short : ClientExchange
cut_short = record {
  answer = none;
  wrote = (dest_text host_a ++ (0 ∷ [])) ∷ [];
  opened = 2;
  closed = 2;
}

short_run : pp_client_exch_dest short_network host_a ≡ some cut_short
unfolding pp_client_exch_dest connect_loop client_talk print_dest dest_text print_hex hex_pad
    gid_to_wire_gid print_words hex_digits
short_run = refl

-- A local id of more than 16 bits does not fit.
abbrev host_c : PingpongDest
host_c = dest_of 65536 40 111 (replicate 16 0)

print_dest_example :
    (fits host_c ≡ true
      → (print_dest host_c ≡ some (dest_text host_c ++ (0 ∷ [])))
        × (length (dest_text host_c ++ (0 ∷ [])) ≡ msg_size))
    × (fits host_c ≡ false → print_dest host_c ≡ none)
print_dest_example = print_dest_lem host_c
