-- ===== src/Baseline/Pieces.antt =====
-- Baseline/server.c: the loops of `main` on experiments that the network cuts into pieces.
use network_optimization.Prelude.{
  ℕ, suc, ◌+◌, ◌≡◌, refl, ap, ◌∙◌, inl, inr, Option, some, List, [], ◌∷◌, ◌++◌, true, false, ◌==◌,
  arith, length,
}
use network_optimization.Verbs.{returned}
use network_optimization.Baseline.Calls.{end_byte}
use network_optimization.Baseline.Serving.{
  Phase, receiving, replying, after_recv, count_reply, serve, ServerCalls, accept_and_serve,
  listen_on, with_socket, server_main,
}
use network_optimization.Baseline.Script.{NoEnd}
use network_optimization.Baseline.Pace.{cut, after_end, after_other}

-- A piece, with its first byte.
abbrev pub Piece : Type 0
Piece = ℕ × List ℕ

abbrev pub bytes_of : List Piece → List ℕ
bytes_of [] = []
bytes_of ((b, p) ∷ ps) = b ∷ p ++ bytes_of ps

-- What the calls of `recv` bring.
abbrev pub received : List Piece → List (Option (List ℕ)) → List (Option (List ℕ))
received [] rs = rs
received ((b, p) ∷ ps) rs = some (b ∷ p) ∷ received ps rs

-- The bytes of one experiment: messages, and the end byte.
abbrev pub IsExperiment : List Piece → Type 0
IsExperiment ps = (msgs : List ℕ) × NoEnd msgs × (bytes_of ps ≡ msgs ++ (end_byte ∷ []))

abbrev pub AllExperiments : List (List Piece) → Type 0
AllExperiments [] = Unit
AllExperiments (ps ∷ pss) = IsExperiment ps × AllExperiments pss

abbrev pub all_received : List (List Piece) → List (Option (List ℕ)) → List (Option (List ℕ))
all_received [] rs = rs
all_received (ps ∷ pss) rs = received ps (all_received pss rs)

nothing_after : (ps : List Piece) → bytes_of ps ≡ [] → ps ≡ []
nothing_after [] e = refl
nothing_after ((b, p) ∷ ps) e = cc

serve_piece :
    (fds : List (Option ℕ)) (b : ℕ) (p : List ℕ) (rs : List (Option (List ℕ))) (n : ℕ) (ph : Phase)
    → after_recv b p ≡ ph
    → serve fds (some (b ∷ p) ∷ rs) n ≡ serve fds rs (count_reply ph n)
unfolding serve
serve_piece fds b p rs n ph e = ap (λ x. serve fds rs (count_reply x n)) e

experiment_lem :
    (fds : List (Option ℕ)) (ps : List Piece) (rs : List (Option (List ℕ))) (n : ℕ) (msgs : List ℕ)
    → NoEnd msgs
    → bytes_of ps ≡ msgs ++ (end_byte ∷ [])
    → serve fds (received ps rs) n ≡ serve fds rs (n + 1)
unfolding serve
experiment_lem fds [] rs n [] h e = cc
experiment_lem fds [] rs n (m ∷ msgs) h e = cc
experiment_lem fds ((b, p) ∷ ps) rs n msgs h e = elim (cut b p (bytes_of ps) msgs e h) [
  | inl (all, z) ↦
      serve_piece fds b p (received ps rs) n replying (after_end b p z)
      ∙ ap (λ qs. serve fds (received qs rs) (n + 1)) (nothing_after ps all)
  | inr (left, rest, none_ends, nz) ↦
      serve_piece fds b p (received ps rs) n receiving (after_other b p nz)
      ∙ experiment_lem fds ps rs n left none_ends rest
]

experiments_lem :
    (fds : List (Option ℕ)) (pss : List (List Piece)) (n : ℕ)
    → AllExperiments pss
    → serve fds (all_received pss (some [] ∷ [])) n
      ≡ returned (record { status = 0; replies = n + length pss; closed_fds = fds })
unfolding serve
experiments_lem fds [] n h = let same : n + 0 ≡ n = omega arith in rw same refl
experiments_lem fds (ps ∷ pss) n ((msgs, none_ends, all), h) =
    let count : n + 1 + length pss ≡ n + suc (length pss) = omega arith in
    experiment_lem fds ps (all_received pss (some [] ∷ [])) n msgs none_ends all
    ∙ experiments_lem fds pss (n + 1) h
    ∙ ap (λ k. returned (record { status = 0; replies = k; closed_fds = fds })) count

suc_ne : (n : ℕ) → (suc n == 0) ≡ false
suc_ne n = ground arith

-- A server whose calls succeed, and which receives experiments one after the other, each cut into
-- pieces in any way, and then the end of the stream, answers once for each experiment, closes both
-- sockets and ends with status 0.
pub server_main-serve :
    (c : ServerCalls) (fd new_socket : ℕ) (pss : List (List Piece))
    → c.socket_fd ≡ some (suc fd)
    → c.option_set ≡ true
    → c.bound ≡ true
    → c.listens ≡ true
    → c.accepted ≡ some new_socket
    → c.received ≡ all_received pss (some [] ∷ [])
    → AllExperiments pss
    → server_main c
      ≡ returned (record {
        status = 0;
        replies = length pss;
        closed_fds = some new_socket ∷ some (suc fd) ∷ [];
      })
unfolding server_main with_socket listen_on accept_and_serve
server_main-serve c fd new_socket pss e1 e2 e3 e4 e5 e6 h =
    rw (e1, suc_ne fd, e2, e3, e4, e5, e6)
      (experiments_lem (some new_socket ∷ some (suc fd) ∷ []) pss 0 h
        ∙ ap
            (λ k. returned (record {
              status = 0;
              replies = k;
              closed_fds = some new_socket ∷ some (suc fd) ∷ [];
            }))
            zero_plus)
  where
    zero_plus : 0 + length pss ≡ length pss
    zero_plus = omega arith
