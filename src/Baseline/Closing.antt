-- ===== src/Baseline/Closing.antt =====
-- Baseline/: the sockets that the two programs open and close.
use network_optimization.Prelude.{
  ℕ, ◌≡◌, ◌≢◌, refl, ap, inl, inr, none, some, Option, List, [], ◌∷◌, Bool-cases, ==_iff, ◌==◌,
  ◌&&◌, if◌then◌else◌, arith,
}
use network_optimization.Verbs.{Outcome, returned}
use network_optimization.Exchange.{connect_loop}
use network_optimization.Exchange.Closing.{connect_loop_lem}
use network_optimization.Baseline.Calls.{ClientCalls, client_main}
use network_optimization.Baseline.Serving.{
  ServerEnd, serve, give_up, ServerCalls, accept_and_serve, listen_on, with_socket, server_main,
}

-- The socket of the client, if it was accepted, and the one that listens.
abbrev accepted_fds : Option ℕ → Option ℕ → List (Option ℕ)
accepted_fds none server_fd = server_fd ∷ []
accepted_fds (some new_socket) server_fd = some new_socket ∷ server_fd ∷ []

abbrev opened_fds : ServerCalls → List (Option ℕ)
opened_fds c =
    if c.option_set && c.bound && c.listens
    then accepted_fds c.accepted c.socket_fd
    else c.socket_fd ∷ []

returned_inj : {e r : ServerEnd} → ◌≡◌ {A = Outcome ServerEnd} (returned e) (returned r) → e ≡ r
returned_inj e = cc

give_up-closes :
    (fds : List (Option ℕ)) (r : ServerEnd) → give_up fds ≡ returned r → r.closed_fds ≡ fds
give_up-closes fds r e = ground (arith, returned_inj e)

serve-closes :
    (fds : List (Option ℕ)) (rs : List (Option (List ℕ))) (n : ℕ) (r : ServerEnd)
    → serve fds rs n ≡ returned r
    → (r.closed_fds ≡ fds) × (r.status ≡ 0)
unfolding serve
serve-closes fds [] n r e = cc
serve-closes fds (none ∷ rs) n r e = ground (arith, returned_inj e)
serve-closes fds (some [] ∷ rs) n r e = ground (arith, returned_inj e)
serve-closes fds (some (b ∷ p) ∷ rs) n r e = serve-closes fds rs _ r e

accept_and_serve-closes :
    (accepted : Option ℕ) (rs : List (Option (List ℕ))) (fd : Option ℕ) (r : ServerEnd)
    → accept_and_serve accepted rs fd ≡ returned r
    → r.closed_fds ≡ accepted_fds accepted fd
unfolding accept_and_serve
accept_and_serve-closes none rs fd r e = ground (arith, returned_inj e)
accept_and_serve-closes (some new_socket) rs fd r e = (serve-closes _ rs 0 r e).0

listen_on-closes :
    (c : ServerCalls) (fd : Option ℕ) (r : ServerEnd)
    → listen_on c fd ≡ returned r
    → r.closed_fds
      ≡ (if c.option_set && c.bound && c.listens then accepted_fds c.accepted fd else fd ∷ [])
unfolding listen_on
listen_on-closes c fd r e =
    ground (arith, give_up-closes (fd ∷ []) r, accept_and_serve-closes c.accepted c.received fd r)

with_socket-closes :
    (c : ServerCalls) (fd : Option ℕ) (r : ServerEnd)
    → fd ≢ some 0
    → with_socket c fd ≡ returned r
    → r.closed_fds
      ≡ (if c.option_set && c.bound && c.listens then accepted_fds c.accepted fd else fd ∷ [])
unfolding with_socket
with_socket-closes c none r nz e = listen_on-closes c none r e
with_socket-closes c (some fd) r nz e = elim (Bool-cases (fd == 0)) [
  | inl z ↦ absurd (nz (ap some ((==_iff fd 0).0 z)))
  | inr other ↦ listen_on-closes c (some fd) r (rw other at e)
]

-- Whatever the calls answer, with a descriptor other than 0: when the server ends, it has closed the
-- socket that listens, and that of the client if there is one, and nothing else.
pub server_main-closes :
    (c : ServerCalls) (r : ServerEnd)
    → c.socket_fd ≢ some 0
    → server_main c ≡ returned r
    → r.closed_fds ≡ opened_fds c
unfolding server_main
server_main-closes c r nz e = with_socket-closes c c.socket_fd r nz e

-- However the client ends, it has closed every socket that it opened.
pub client_main-closes : (c : ClientCalls) → (client_main c).opened ≡ (client_main c).closed
unfolding client_main
client_main-closes c =
    let (one_open, none_open) = connect_loop_lem c.addresses 0 in
    elim (Bool-cases (c.argc == 2 && c.service_printed && c.resolved)) [
      | inl known ↦ elim (Bool-cases (connect_loop c.addresses 0 0).0) [
        | inl found ↦ rw (known, found) (one_open found)
        | inr lost ↦ rw (known, lost) (none_open lost)
      ]
      | inr other ↦ rw other refl
    ]
