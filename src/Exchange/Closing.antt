-- ===== src/Exchange/Closing.antt =====
-- The sockets of an exchange: which are closed, and which a server gets.
use network_optimization.Prelude.{
  ℕ, zero, suc, ◌+◌, ◌≡◌, refl, sym, ap, ◌∙◌, inl, inr, none, some, Option, List, [], ◌∷◌, ◌++◌,
  append_assoc, append-nil, length, true, false, Bool-cases, ◌&&◌, if◌then◌else◌, arith,
}
use network_optimization.Prelude.Int.{ℤ, pos}
use network_optimization.Verbs.{Outcome, returned, waiting, fault}
use network_optimization.Connect.{PingpongDest}
use network_optimization.Exchange.{
  Address, Network, connect_loop, ClientExchange, client_talk, pp_client_exch_dest, Listener,
  accept_loop, listen_to_websocket,
}

-- One socket is open if an address was found, and none otherwise.
pub connect_loop_lem :
    (ts : List Address) (n : ℕ)
    → ((connect_loop ts n n).0 ≡ true → (connect_loop ts n n).1 ≡ (connect_loop ts n n).2 + 1)
      × ((connect_loop ts n n).0 ≡ false → (connect_loop ts n n).1 ≡ (connect_loop ts n n).2)
unfolding connect_loop
connect_loop_lem [] n = (λ h. cc, λ h. refl)
connect_loop_lem (t ∷ ts) n = elim (Bool-cases (t.has_socket && t.succeeds)) [
  | inl found ↦ (λ h. rw found refl, λ h. absurd (ground (arith, found)))
  | inr other ↦ rw other (connect_loop_lem ts (n + (if t.has_socket then 1 else 0)))
]

client_talk_lem :
    (net : Network) (my : PingpongDest) (opened closed : ℕ) (r : ClientExchange)
    → client_talk net my opened closed ≡ some r
    → (r.opened ≡ opened) × (r.closed ≡ closed + 1)
unfolding client_talk
client_talk_lem net my opened closed r e = ground arith

-- However the exchange ends, the client has closed every socket that it opened.
pub pp_client_exch_dest-closes :
    (net : Network) (my : PingpongDest) (r : ClientExchange)
    → pp_client_exch_dest net my ≡ some r
    → r.opened ≡ r.closed
unfolding pp_client_exch_dest
pp_client_exch_dest-closes net my r e =
    let (one_open, none_open) = connect_loop_lem net.addresses 0 in
    let tried = connect_loop net.addresses 0 0 in
    elim (Bool-cases (net.service_printed && net.resolved)) [
      | inl known ↦ elim (Bool-cases tried.0) [
        | inl found ↦
            let (o, c) = client_talk_lem net my tried.1 tried.2 r (rw (known, found) at e) in
            o ∙ one_open found ∙ sym c
        | inr lost ↦ ground (arith, none_open lost)
      ]
      | inr other ↦ ground arith
    ]

abbrev pub all_some : List ℕ → List (Option ℕ)
all_some [] = []
all_some (x ∷ xs) = some x ∷ all_some xs

abbrev fds_of : Outcome (ℤ × List ℕ) → List ℕ
fds_of (returned (code, fds)) = fds
fds_of waiting = []
fds_of fault = []

accept_loop_lem :
    (accepts : List (Option ℕ)) (n : ℕ) (fds fds' : List ℕ)
    → accept_loop accepts n fds ≡ returned (pos 0, fds')
    → (new : List ℕ) × (rest : List (Option ℕ)) × (fds' ≡ fds ++ new)
      × (accepts ≡ all_some new ++ rest)
      × (length new ≡ n)
unfolding accept_loop
accept_loop_lem accepts zero fds fds' e =
    ([], accepts, sym (ap fds_of e) ∙ sym (append-nil fds), refl, refl)
accept_loop_lem [] (suc n) fds fds' e = absurd cc
accept_loop_lem (none ∷ accepts) (suc n) fds fds' e = absurd cc
accept_loop_lem (some connfd ∷ accepts) (suc n) fds fds' e =
    let (new, rest, e1, e2, l) = accept_loop_lem accepts n (fds ++ (connfd ∷ [])) fds' e in
    (
      connfd ∷ new,
      rest,
      e1 ∙ append_assoc fds (connfd ∷ []) new,
      ap (λ xs. some connfd ∷ xs) e2,
      ap suc l,
    )

-- When `listen_to_websocket` returns 0, it has accepted as many sockets as it was asked for, in the
-- order in which they came, and no accept before them failed.
pub listen_to_websocket-Accepts :
    (net : Listener) (client_number : ℕ) (fds : List ℕ)
    → listen_to_websocket net client_number ≡ returned (pos 0, fds)
    → (rest : List (Option ℕ)) × (net.accepts ≡ all_some fds ++ rest) × (length fds ≡ client_number)
unfolding listen_to_websocket
listen_to_websocket-Accepts net client_number fds e =
    elim (Bool-cases (net.service_printed && net.resolved && (connect_loop net.addresses 0 0).0)) [
      | inl up ↦
          let (new, rest, e1, e2, l) =
            accept_loop_lem net.accepts client_number [] fds (rw up at e) in
          (rest, e2 ∙ ap (λ xs. all_some xs ++ rest) (sym e1), ap length e1 ∙ l)
      | inr down ↦ absurd cc
    ]
