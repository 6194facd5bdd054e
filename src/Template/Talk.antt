-- ===== src/Template/Talk.antt =====
-- Optimization/bw_template.c: the exchange of destinations over TCP. What the sockets do is an input,
-- as in Exchange; the server here listens for its one client itself.
use network_optimization.Prelude.{
  ℕ, suc, Option, none, some, List, [], ◌∷◌, ◌++◌, Bool, false, ◌==◌, ◌&&◌, if◌then◌else◌, length,
}
use network_optimization.Prelude.Strings.{◌>>=◌}
use network_optimization.Wire.{Mtu}
use network_optimization.Connect.{Change}
use network_optimization.Exchange.{Network, done_message}
use network_optimization.Template.Sockets.{socket_loop}
use network_optimization.Template.Message.{BufferDest, msg_size, print_dest, read_dest}

-- The steps to "ready to receive" and "ready to send" are those of ib_functions.c.
unfoldable pub pp_connect_ctx : (Change → ℕ) → ℕ → ℕ → Mtu → ℕ → BufferDest → ℕ → ℕ × List Change
pp_connect_ctx modify_qp port my_psn mtu sl dest sgid_idx =
    network_optimization.Connect.pp_connect_ctx modify_qp port my_psn mtu sl dest.host sgid_idx

abbrev wrote_all : Option ℕ → Bool
wrote_all none = false
wrote_all (some n) = n == msg_size

-- The result, `none` for NULL, the messages given to `write`, the changes of the queue pair, the
-- number of sockets opened, and the sockets closed, in order.
pub record Talk : Type 0 where
  pub answer : Option BufferDest
  pub wrote : List (List ℕ)
  pub changes : List Change
  pub opened : ℕ
  pub closed : List ℕ

abbrev without_answer : ℕ → List ℕ → Talk
without_answer opened closed = record {
  answer = none;
  wrote = [];
  changes = [];
  opened = opened;
  closed = closed;
}

-- The client's part on its connected socket, which every path closes.
unfoldable pub client_talk : Network → BufferDest → ℕ → ℕ → List ℕ → Option Talk
client_talk net my_dest sockfd opened closed = do
  msg ← print_dest my_dest
  let failed : Talk = record (without_answer opened (closed ++ (sockfd ∷ []))) { wrote = msg ∷ [] }
  let done : Talk = record failed { wrote = msg ∷ done_message ∷ [] }
  if wrote_all net.written
      then (if length net.incoming == msg_size
          then (if net.has_memory
              then (do
                rem_dest ← read_dest net.incoming
                some (record done { answer = some rem_dest }))
              else some done)
          else some failed)
      else some failed

unfoldable pub pp_client_exch_dest : Network → BufferDest → Option Talk
pp_client_exch_dest net my_dest =
    let tried = socket_loop net.addresses 0 [] in
    if net.service_printed && net.resolved
    then elim tried.0 [
      | none ↦ some (without_answer tried.1 tried.2)
      | some sockfd ↦ client_talk net my_dest sockfd tried.1 tried.2
    ]
    else some (without_answer 0 [])

-- The answer to the client, once the queue pair is connected. What the last `read` brings is not
-- looked at.
unfoldable pub server_reply :
    Network → BufferDest → BufferDest → List Change → ℕ → List ℕ → Option Talk
server_reply net my_dest rem_dest changes opened closed = do
  msg ← print_dest my_dest
  some record {
    answer = if wrote_all net.written then some rem_dest else none;
    wrote = msg ∷ [];
    changes = changes;
    opened = opened;
    closed = closed;
  }

-- The server's part on the accepted socket; every path closes that.
unfoldable pub server_talk :
    (Change → ℕ) → Network → ℕ → Mtu → ℕ → BufferDest → ℕ → ℕ → ℕ → List ℕ → Option Talk
server_talk modify_qp net ib_port mtu sl my_dest sgid_idx connfd opened closed =
    let closed' = closed ++ (connfd ∷ []) in
    let failed : Talk = without_answer opened closed' in
    if length net.incoming == msg_size && net.has_memory
    then (do
      rem_dest ← read_dest net.incoming
      let connected = pp_connect_ctx modify_qp ib_port my_dest.host.psn mtu sl rem_dest sgid_idx
      if connected.0 == 0
          then server_reply net my_dest rem_dest connected.1 opened closed'
          else some (record failed { changes = connected.1 }))
    else some failed

-- `accepts` tells whether `accept` gives a socket, which is then the next one. The one that listens is
-- closed behind it.
unfoldable pub pp_server_exch_dest :
    (Change → ℕ) → Network → Bool → ℕ → Mtu → ℕ → BufferDest → ℕ → Option Talk
pp_server_exch_dest modify_qp net accepts ib_port mtu sl my_dest sgid_idx =
    let tried = socket_loop net.addresses 0 [] in
    if net.service_printed && net.resolved
    then elim tried.0 [
      | none ↦ some (without_answer tried.1 tried.2)
      | some sockfd ↦
          let closed = tried.2 ++ (sockfd ∷ []) in
          (if accepts
            then server_talk modify_qp net ib_port mtu sl my_dest sgid_idx tried.1 (suc tried.1)
                closed
            else some (without_answer tried.1 closed))
    ]
    else some (without_answer 0 [])
