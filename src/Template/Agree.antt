-- ===== src/Template/Agree.antt =====
-- Optimization/bw_template.c: the two hosts of an exchange together.
use network_optimization.Prelude.{ℕ, suc, ◌≡◌, refl, some, List, [], ◌∷◌, length, true}
use network_optimization.Wire.{Mtu}
use network_optimization.Connect.{Change}
use network_optimization.Exchange.{Network, done_message}
use network_optimization.Exchange.Agree.{hears, changes_to, pp_connect_ctx_lem}
use network_optimization.Template.Message.{
  BufferDest, msg_size, print_dest, read_dest, IsDest, read_dest-print_dest,
}
use network_optimization.Template.Sockets.{socket_loop, first_sockets, socket_loop-some}
use network_optimization.Template.Talk.{
  pp_connect_ctx, Talk, client_talk, pp_client_exch_dest, server_reply, server_talk,
  pp_server_exch_dest,
}

-- The calls of a host succeed, and an address is found.
pub record IsUp (net : Network) : Type 0 where
  pub printed : net.service_printed ≡ true
  pub found : net.resolved ≡ true
  pub sockfd : ℕ
  pub connects : (socket_loop net.addresses 0 []).0 ≡ some sockfd
  pub writes : net.written ≡ some msg_size
  pub memory : net.has_memory ≡ true

-- What the client's exchange ends with.
abbrev pub client_end : Network → BufferDest → List ℕ → Talk
client_end net rem msg = record {
  answer = some rem;
  wrote = msg ∷ done_message ∷ [];
  changes = [];
  opened = (socket_loop net.addresses 0 []).1;
  closed = first_sockets (socket_loop net.addresses 0 []).1;
}

-- What the server's ends with.
abbrev pub server_end : Network → BufferDest → List ℕ → List Change → Talk
server_end net rem msg changes = record {
  answer = some rem;
  wrote = msg ∷ [];
  changes = changes;
  opened = suc (socket_loop net.addresses 0 []).1;
  closed = first_sockets (suc (socket_loop net.addresses 0 []).1);
}

client_lem :
    (net : Network) (my rem : BufferDest) (to_server to_client : List ℕ)
    → IsUp net
    → print_dest my ≡ some to_server
    → length to_client ≡ msg_size
    → read_dest to_client ≡ some rem
    → pp_client_exch_dest (hears net to_client) my ≡ some (client_end net rem to_server)
unfolding pp_client_exch_dest client_talk
client_lem net my rem to_server to_client up prints l reads =
    let (o, c) = socket_loop-some net.addresses 0 up.sockfd up.connects in
    rw (up.printed, up.found, up.connects, prints, up.writes, l, up.memory, reads, o, c) refl

server_lem :
    (modify_qp : Change → ℕ) (net : Network) (port : ℕ) (mtu : Mtu) (sl : ℕ) (my rem : BufferDest)
    (sgid_idx : ℕ) (to_server to_client : List ℕ)
    → ((change : Change) → modify_qp change ≡ 0)
    → IsUp net
    → length to_server ≡ msg_size
    → read_dest to_server ≡ some rem
    → print_dest my ≡ some to_client
    → pp_server_exch_dest modify_qp (hears net to_server) true port mtu sl my sgid_idx
      ≡ some (server_end net rem to_client (changes_to port my.host.psn mtu sl rem.host sgid_idx))
unfolding pp_server_exch_dest server_talk server_reply pp_connect_ctx
server_lem modify_qp net port mtu sl my rem sgid_idx to_server to_client works up l reads prints =
    let (o, c) = socket_loop-some net.addresses 0 up.sockfd up.connects in
    rw
      (
        up.printed,
        up.found,
        up.connects,
        l,
        up.memory,
        reads,
        pp_connect_ctx_lem modify_qp port my.host.psn mtu sl rem.host sgid_idx works,
        prints,
        up.writes,
        o,
        c,
      )
      refl

-- When the calls of both hosts succeed, and the client comes while the server listens, each is told
-- the other's destination with the address and the remote key of its region, each from the message
-- that the other one writes, and the server's queue pair is brought to the client.
pub pp_client_exch_dest-pp_server_exch_dest :
    (modify_qp : Change → ℕ) (client_net server_net : Network) (client server : BufferDest)
    (port : ℕ) (mtu : Mtu) (sl sgid_idx : ℕ)
    → ((change : Change) → modify_qp change ≡ 0)
    → IsUp client_net
    → IsUp server_net
    → IsDest client
    → IsDest server
    → (to_server : List ℕ) × (to_client : List ℕ) × (pp_client_exch_dest
          (hears client_net to_client)
          client
        ≡ some (client_end client_net server to_server))
      × (pp_server_exch_dest modify_qp (hears server_net to_server) true port mtu sl server sgid_idx
          ≡ some (
              server_end server_net client to_client
                (changes_to port server.host.psn mtu sl client.host sgid_idx)))
pp_client_exch_dest-pp_server_exch_dest modify_qp client_net server_net client server port mtu sl
      sgid_idx works up up' wc ws =
    let (to_server, prints, l, reads) = read_dest-print_dest client wc in
    let (to_client, prints', l', reads') = read_dest-print_dest server ws in
    (
      to_server,
      to_client,
      client_lem client_net client server to_server to_client up prints l' reads',
      server_lem modify_qp server_net port mtu sl server client sgid_idx to_server to_client works
          up' l reads prints',
    )
