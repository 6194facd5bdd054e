-- ===== src/Template/Closing.antt =====
-- Optimization/bw_template.c: the sockets of an exchange, on every path.
use mathlib.Core.Path.{subst}
use network_optimization.Prelude.{
  ℕ, suc, ◌≡◌, refl, inl, inr, Option, some, [], ◌∷◌, ◌++◌, Bool, Bool-cases, Option-cases, ◌==◌,
  ◌&&◌, length, List, arith,
}
use network_optimization.Wire.{Mtu}
use network_optimization.Connect.{Change}
use network_optimization.Exchange.{Network}
use network_optimization.Template.Sockets.{
  socket_loop, first_sockets, socket_loop-some, socket_loop-none,
}
use network_optimization.Template.Message.{BufferDest, msg_size, read_dest}
use network_optimization.Template.Talk.{
  pp_connect_ctx, Talk, client_talk, pp_client_exch_dest, server_reply, server_talk,
  pp_server_exch_dest,
}

some_of : {t r : Talk} → ◌≡◌ {A = Option Talk} (some t) (some r) → t ≡ r
some_of e = cc

client_talk_lem :
    (net : Network) (my : BufferDest) (sockfd opened : ℕ) (closed : List ℕ) (r : Talk)
    → client_talk net my sockfd opened closed ≡ some r
    → (r.opened ≡ opened) × (r.closed ≡ closed ++ (sockfd ∷ []))
unfolding client_talk
client_talk_lem net my sockfd opened closed r e = ground arith

server_reply_lem :
    (net : Network) (my rem : BufferDest) (changes : List Change) (opened : ℕ) (closed : List ℕ)
    (r : Talk)
    → server_reply net my rem changes opened closed ≡ some r
    → (r.opened ≡ opened) × (r.closed ≡ closed)
unfolding server_reply
server_reply_lem net my rem changes opened closed r e = ground arith

module _ (modify_qp : Change → ℕ) (net : Network) (port : ℕ) (mtu : Mtu) (sl : ℕ) (my : BufferDest)
    (sgid_idx : ℕ) where
  server_talk_lem :
      (connfd opened : ℕ) (closed : List ℕ) (r : Talk)
      → server_talk modify_qp net port mtu sl my sgid_idx connfd opened closed ≡ some r
      → (r.opened ≡ opened) × (r.closed ≡ closed ++ (connfd ∷ []))
  unfolding server_talk
  server_talk_lem connfd opened closed r e =
      elim (Bool-cases (length net.incoming == msg_size && net.has_memory)) [
        | inl whole ↦ elim (Option-cases (read_dest net.incoming)) [
          | inl outside ↦ absurd (ground (arith, rw (whole, outside) at e))
          | inr (rem, reads) ↦
              let connected = pp_connect_ctx modify_qp port my.host.psn mtu sl rem sgid_idx in
              elim (Bool-cases (connected.0 == 0)) [
                | inl done ↦
                    server_reply_lem net my rem connected.1 opened (closed ++ (connfd ∷ [])) r
                      (rw (whole, reads, done) at e)
                | inr refused ↦ ground (arith, rw (whole, reads, refused) at e)
              ]
        ]
        | inr short ↦ ground (arith, rw short at e)
      ]

  -- However the exchange ends, unless reading the client's message is undefined, the server has
  -- closed every socket that it opened, each of them once: each that it could not bind, the one that
  -- listens, and the client's.
  pub pp_server_exch_dest-closes :
      (accepts : Bool) (r : Talk)
      → pp_server_exch_dest modify_qp net accepts port mtu sl my sgid_idx ≡ some r
      → r.closed ≡ first_sockets r.opened
  unfolding pp_server_exch_dest
  pp_server_exch_dest-closes accepts r e =
      let tried = socket_loop net.addresses 0 [] in
      elim (Bool-cases (net.service_printed && net.resolved)) [
        | inl known ↦ elim (Option-cases tried.0) [
          | inr (fd, found) ↦
              let (one, rest) = socket_loop-some net.addresses 0 fd found in
              elim (Bool-cases accepts) [
                | inl accepted ↦
                    let (o, c) =
                      server_talk_lem tried.1 (suc tried.1) (tried.2 ++ (fd ∷ [])) r
                        (rw (known, found, accepted) at e) in
                    rw (o, c, one, rest) refl
                | inr refused ↦
                    let same = some_of (rw (known, found, refused, one, rest) at e) in
                    subst (λ t. t.closed ≡ first_sockets t.opened) same refl
              ]
          | inl lost ↦
              let same = some_of (rw (known, lost) at e) in
              subst (λ t. t.closed ≡ first_sockets t.opened) same
                (socket_loop-none net.addresses 0 lost)
        ]
        | inr other ↦
            let same = some_of (rw other at e) in
            subst (λ t. t.closed ≡ first_sockets t.opened) same refl
      ]

-- The same for the client.
pub pp_client_exch_dest-opened :
    (net : Network) (my : BufferDest) (r : Talk)
    → pp_client_exch_dest net my ≡ some r
    → r.closed ≡ first_sockets r.opened
unfolding pp_client_exch_dest
pp_client_exch_dest-opened net my r e =
    let tried = socket_loop net.addresses 0 [] in
    elim (Bool-cases (net.service_printed && net.resolved)) [
      | inl known ↦ elim (Option-cases tried.0) [
        | inr (fd, found) ↦
            let (one, rest) = socket_loop-some net.addresses 0 fd found in
            let (o, c) = client_talk_lem net my fd tried.1 tried.2 r (rw (known, found) at e) in
            rw (o, c, one, rest) refl
        | inl lost ↦
            let same = some_of (rw (known, lost) at e) in
            subst (λ t. t.closed ≡ first_sockets t.opened) same
              (socket_loop-none net.addresses 0 lost)
      ]
      | inr other ↦
          let same = some_of (rw other at e) in
          subst (λ t. t.closed ≡ first_sockets t.opened) same refl
    ]
