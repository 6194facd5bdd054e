-- ===== src/Exchange/Agree.antt =====
-- The two hosts of an exchange together.
use network_optimization.Prelude.{
  ℕ, ◌+◌, ◌≡◌, refl, ap, ◌∙◌, some, List, [], ◌∷◌, length, true, ◌==◌, ◌&&◌, inl, inr, Bool-cases,
  Option-cases, arith,
}
use network_optimization.Wire.{Mtu}
use network_optimization.Connect.{
  PingpongDest, Change, to_receive, to_send, receive_attributes, send_attributes, pp_connect_ctx,
}
use network_optimization.Connect.Laws.{both_done}
use network_optimization.Exchange.{
  msg_size, print_dest, read_dest, Network, connect_loop, done_message, client_talk,
  pp_client_exch_dest, ServerExchange, server_reply, pp_server_exch_dest,
}
use network_optimization.Exchange.Printing.{IsDest, read_dest-print_dest}

-- The calls of a host succeed, and an address of the other one is found.
pub record IsUp (net : Network) : Type 0 where
  pub printed : net.service_printed ≡ true
  pub found : net.resolved ≡ true
  pub connects : (connect_loop net.addresses 0 0).0 ≡ true
  pub writes : net.written ≡ some msg_size
  pub memory : net.has_memory ≡ true

abbrev pub hears : Network → List ℕ → Network
hears net incoming = record net { incoming = incoming }

-- The changes that bring a queue pair to its peer.
abbrev pub changes_to : ℕ → ℕ → Mtu → ℕ → PingpongDest → ℕ → List Change
changes_to port my_psn mtu sl dest sgid_idx =
    to_receive (receive_attributes port mtu sl dest sgid_idx)
    ∷ to_send (send_attributes my_psn)
    ∷ []

pub pp_connect_ctx_lem :
    (modify_qp : Change → ℕ) (port my_psn : ℕ) (mtu : Mtu) (sl : ℕ) (dest : PingpongDest)
    (sgid_idx : ℕ)
    → ((change : Change) → modify_qp change ≡ 0)
    → pp_connect_ctx modify_qp port my_psn mtu sl dest sgid_idx
      ≡ (0, changes_to port my_psn mtu sl dest sgid_idx)
unfolding pp_connect_ctx
pp_connect_ctx_lem modify_qp port my_psn mtu sl dest sgid_idx works =
    rw
      (
        works (to_receive (receive_attributes port mtu sl dest sgid_idx)),
        works (to_send (send_attributes my_psn)),
      )
      refl

server_lem :
    (modify_qp : Change → ℕ) (net : Network) (port : ℕ) (mtu : Mtu) (sl : ℕ) (my rem : PingpongDest)
    (sgid_idx : ℕ) (to_server to_client : List ℕ)
    → ((change : Change) → modify_qp change ≡ 0)
    → IsUp net
    → length to_server ≡ msg_size
    → read_dest to_server ≡ some rem
    → print_dest my ≡ some to_client
    → pp_server_exch_dest modify_qp (hears net to_server) port mtu sl my sgid_idx
      ≡ some record {
        answer = some rem;
        wrote = to_client ∷ [];
        changes = changes_to port my.psn mtu sl rem sgid_idx;
      }
unfolding pp_server_exch_dest server_reply
server_lem modify_qp net port mtu sl my rem sgid_idx to_server to_client works up l reads prints =
    rw
      (
        l,
        up.memory,
        reads,
        pp_connect_ctx_lem modify_qp port my.psn mtu sl rem sgid_idx works,
        prints,
        up.writes,
      )
      refl

client_lem :
    (net : Network) (my rem : PingpongDest) (to_server to_client : List ℕ)
    → IsUp net
    → print_dest my ≡ some to_server
    → length to_client ≡ msg_size
    → read_dest to_client ≡ some rem
    → pp_client_exch_dest (hears net to_client) my
      ≡ some record {
        answer = some rem;
        wrote = to_server ∷ done_message ∷ [];
        opened = (connect_loop net.addresses 0 0).1;
        closed = (connect_loop net.addresses 0 0).2 + 1;
      }
unfolding pp_client_exch_dest client_talk
client_lem net my rem to_server to_client up prints l reads =
    rw (up.printed, up.found, up.connects, prints, up.writes, l, up.memory, reads) refl

-- When the calls of both hosts succeed, the message that the client writes is one that the server
-- reads the client's destination from, and the answer is one that the client reads the server's from:
-- both return the other's destination, and the server's queue pair is changed to the client's.
pub exchange-Agree :
    (modify_qp : Change → ℕ) (client_net server_net : Network) (client server : PingpongDest)
    (port : ℕ) (mtu : Mtu) (sl sgid_idx : ℕ)
    → ((change : Change) → modify_qp change ≡ 0)
    → IsUp client_net
    → IsUp server_net
    → IsDest client
    → IsDest server
    → (to_server : List ℕ) × (to_client : List ℕ) × (pp_client_exch_dest
          (hears client_net to_client)
          client
        ≡ some record {
          answer = some server;
          wrote = to_server ∷ done_message ∷ [];
          opened = (connect_loop client_net.addresses 0 0).1;
          closed = (connect_loop client_net.addresses 0 0).2 + 1;
        })
      × (pp_server_exch_dest modify_qp (hears server_net to_server) port mtu sl server sgid_idx
          ≡ some record {
            answer = some client;
            wrote = to_client ∷ [];
            changes = changes_to port server.psn mtu sl client sgid_idx;
          })
exchange-Agree modify_qp client_net server_net client server port mtu sl sgid_idx works up up' wc
      ws =
    let (to_server, prints, l, reads) = read_dest-print_dest client wc in
    let (to_client, prints', l', reads') = read_dest-print_dest server ws in
    (
      to_server,
      to_client,
      client_lem client_net client server to_server to_client up prints l' reads',
      server_lem modify_qp server_net port mtu sl server client sgid_idx to_server to_client works
          up' l reads prints',
    )

pub connected_lem :
    (modify_qp : Change → ℕ) (port my_psn : ℕ) (mtu : Mtu) (sl : ℕ) (dest : PingpongDest)
    (sgid_idx : ℕ)
    → (pp_connect_ctx modify_qp port my_psn mtu sl dest sgid_idx).0 ≡ 0
    → (pp_connect_ctx modify_qp port my_psn mtu sl dest sgid_idx).1
      ≡ changes_to port my_psn mtu sl dest sgid_idx
connected_lem modify_qp port my_psn mtu sl dest sgid_idx e =
    both_done modify_qp port my_psn mtu sl dest sgid_idx e
    ∙ ap (λ p. p.1) (pp_connect_ctx_lem (λ c. 0) port my_psn mtu sl dest sgid_idx (λ c. refl))

server_reply_lem :
    (net : Network) (my rem remote : PingpongDest) (changes : List Change) (r : ServerExchange)
    → server_reply net my rem changes ≡ some r
    → r.answer ≡ some remote
    → (rem ≡ remote) × (r.changes ≡ changes)
unfolding server_reply
server_reply_lem net my rem remote changes r e a = ground arith

-- Whatever the calls answer: a destination that the server returns is the one that its queue pair
-- was brought to.
pub server_exchange_lem :
    (modify_qp : Change → ℕ) (net : Network) (port : ℕ) (mtu : Mtu) (sl : ℕ)
    (my remote : PingpongDest) (sgid_idx : ℕ) (r : ServerExchange)
    → pp_server_exch_dest modify_qp net port mtu sl my sgid_idx ≡ some r
    → r.answer ≡ some remote
    → r.changes ≡ changes_to port my.psn mtu sl remote sgid_idx
unfolding pp_server_exch_dest
server_exchange_lem modify_qp net port mtu sl my remote sgid_idx r e a =
    elim (Bool-cases (length net.incoming == msg_size && net.has_memory)) [
      | inl whole ↦ elim (Option-cases (read_dest net.incoming)) [
        | inl outside ↦ absurd (ground (arith, rw (whole, outside) at e))
        | inr (rem, reads) ↦
            let connected = pp_connect_ctx modify_qp port my.psn mtu sl rem sgid_idx in
            elim (Bool-cases (connected.0 == 0)) [
              | inl done ↦
                  let code : connected.0 ≡ 0 = ground (arith, done) in
                  let (same, changes) =
                    server_reply_lem net my rem remote connected.1 r (rw (whole, reads, done) at e)
                      a in
                  changes
                  ∙ connected_lem modify_qp port my.psn mtu sl rem sgid_idx code
                  ∙ ap (λ d. changes_to port my.psn mtu sl d sgid_idx) same
              | inr refused ↦ absurd (ground (arith, rw (whole, reads, refused) at e))
            ]
      ]
      | inr short ↦ absurd (ground (arith, rw short at e))
    ]
