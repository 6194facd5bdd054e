-- ===== src/Template/Sockets.antt =====
-- Optimization/bw_template.c: the loops over the addresses in both exchanges. A socket is named by
-- the number of sockets that the call opened before it.
use network_optimization.Prelude.{
  ℕ, zero, suc, ◌≡◌, refl, inl, inr, Option, none, some, List, [], ◌∷◌, ◌++◌, Bool-cases, ◌&&◌,
  if◌then◌else◌, arith,
}
use network_optimization.Exchange.{Address}

-- `sockfd` behind the loop, `none` for -1, the number of sockets opened so far, and those closed.
unfoldable pub socket_loop : List Address → ℕ → List ℕ → Option ℕ × ℕ × List ℕ
socket_loop [] opened closed = (none, opened, closed)
socket_loop (t ∷ ts) opened closed =
    let opened' = if t.has_socket then suc opened else opened in
    let closed' = if t.has_socket then closed ++ (opened ∷ []) else closed in
    let rest = socket_loop ts opened' closed' in
    if t.has_socket && t.succeeds then (some opened, suc opened, closed) else rest

-- The sockets that were opened first, in that order.
abbrev pub first_sockets : ℕ → List ℕ
first_sockets zero = []
first_sockets (suc n) = first_sockets n ++ (n ∷ [])

-- The socket that the loop ends with was opened last, and all before it are closed.
pub socket_loop-some :
    (ts : List Address) (n fd : ℕ)
    → (socket_loop ts n (first_sockets n)).0 ≡ some fd
    → ((socket_loop ts n (first_sockets n)).1 ≡ suc fd)
      × ((socket_loop ts n (first_sockets n)).2 ≡ first_sockets fd)
unfolding socket_loop
socket_loop-some [] n fd e = absurd cc
socket_loop-some (t ∷ ts) n fd e = elim (Bool-cases t.has_socket) [
  | inl opens ↦ elim (Bool-cases t.succeeds) [
    | inl found ↦
        let same : n ≡ fd = ground (arith, rw (opens, found) at e) in
        rw (opens, found, same) (refl, refl)
    | inr other ↦ rw (opens, other) (socket_loop-some ts (suc n) fd (rw (opens, other) at e))
  ]
  | inr none_open ↦ rw none_open (socket_loop-some ts n fd (rw none_open at e))
]

-- Without a socket at its end, all are closed.
pub socket_loop-none :
    (ts : List Address) (n : ℕ)
    → (socket_loop ts n (first_sockets n)).0 ≡ none
    → (socket_loop ts n (first_sockets n)).2 ≡ first_sockets (socket_loop ts n (first_sockets n)).1
unfolding socket_loop
socket_loop-none [] n e = refl
socket_loop-none (t ∷ ts) n e = elim (Bool-cases t.has_socket) [
  | inl opens ↦ elim (Bool-cases t.succeeds) [
    | inl found ↦ absurd (ground (arith, rw (opens, found) at e))
    | inr other ↦ rw (opens, other) (socket_loop-none ts (suc n) (rw (opens, other) at e))
  ]
  | inr none_open ↦ rw none_open (socket_loop-none ts n (rw none_open at e))
]
