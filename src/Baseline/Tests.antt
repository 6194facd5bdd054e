-- ===== src/Baseline/Tests.antt =====
-- Runs of the measurement over TCP.
use network_optimization.Prelude.{◌≡◌, ◌≤◌, ◌⊎◌, refl, some, List, [], ◌∷◌, true, false, arith}
use network_optimization.Verbs.{returned}
use network_optimization.Baseline.Calls.{Call, client_calls, measure_latency}
use network_optimization.Baseline.Serving.{
  Phase, ServerEnd, ServerCalls, server_main, serve, after_recv, last_byte, accept_and_serve,
  listen_on, with_socket,
}
use network_optimization.Baseline.System.{
  System, client_send, client_recv, server_recv, server_send, Reach, here, later, connected,
  Session,
}
use network_optimization.Baseline.Pace.{IsPaced, Session-IsPaced}
use network_optimization.Baseline.Pieces.{Piece, AllExperiments, server_main-serve}
use network_optimization.Baseline.Ending.{IsOver, CanStep, most_steps, Session-ends}
use network_optimization.Baseline.Closing.{server_main-closes}

-- An experiment in two pieces, one of the next, and the end of the stream.
abbrev working : ServerCalls
working = record {
  socket_fd = some 3;
  option_set = true;
  bound = true;
  listens = true;
  accepted = some 4;
  received = some (65 ∷ 65 ∷ []) ∷ some (65 ∷ 122 ∷ []) ∷ some (122 ∷ []) ∷ some [] ∷ [];
}

abbrev worked : ServerEnd
worked = record { status = 0; replies = 2; closed_fds = some 4 ∷ some 3 ∷ [] }

working_run : server_main working ≡ returned worked
unfolding server_main with_socket listen_on accept_and_serve serve after_recv last_byte
working_run = refl

server_main-closes_example : worked.closed_fds ≡ some 4 ∷ some 3 ∷ []
server_main-closes_example = server_main-closes working worked (λ e. cc) working_run

-- The same, as experiments in pieces.
abbrev pieces : List (List Piece)
pieces = ((65, 65 ∷ []) ∷ (65, 122 ∷ []) ∷ []) ∷ ((122, []) ∷ []) ∷ []

pieces-AllExperiments : AllExperiments pieces
pieces-AllExperiments = (
  (65 ∷ 65 ∷ 65 ∷ [], (omega arith, (omega arith, (omega arith, tt))), refl),
  (([], tt, refl), tt),
)

server_main-serve_example :
    server_main working
    ≡ returned (record { status = 0; replies = 2; closed_fds = some 4 ∷ some 3 ∷ [] })
server_main-serve_example =
    server_main-serve working 2 4 pieces refl refl refl refl refl refl pieces-AllExperiments

-- The test of the descriptor takes 0 for an error and leaves it open.
zero_descriptor :
    server_main (record working { socket_fd = some 0 })
    ≡ returned (record { status = 1; replies = 0; closed_fds = [] })
unfolding server_main with_socket
zero_descriptor = refl

-- The next call of the client, and the calls behind it.
abbrev next_call : List Call → List Call
next_call [] = []
next_call (c ∷ cs) = cs

-- The first round of the warm-up, up to the answer of the server.
abbrev answered_state : System
answered_state = record {
  calls = next_call client_calls;
  to_server = [];
  to_client = 82 ∷ 0 ∷ [];
  phase = Phase.receiving;
  client_open = true;
}

answered-Session : Session 3 answered_state
unfolding client_calls measure_latency after_recv last_byte
answered-Session =
    later
      (later (later here (client_send (122 ∷ []) _ refl refl))
        (server_recv 122 [] [] refl refl (omega arith) refl))
      (server_send refl refl)

Session-IsPaced_example : IsPaced answered_state
Session-IsPaced_example = Session-IsPaced answered-Session

Session-ends_example : (3 ≤ most_steps) × (IsOver answered_state ⊎ CanStep answered_state)
Session-ends_example = Session-ends answered-Session

-- When the two bytes of an answer come apart, the second round ends before the server has read its
-- end message.
early : Reach false (connected (measure_latency 2 [])) 6 (record {
  calls = [];
  to_server = 122 ∷ [];
  to_client = [];
  phase = Phase.receiving;
  client_open = true;
})
unfolding measure_latency after_recv last_byte
early =
    later
      (later
        (later
          (later
            (later (later here (client_send (122 ∷ []) _ refl refl))
              (server_recv 122 [] [] refl refl (omega arith) refl))
            (server_send refl refl))
          (client_recv 82 [] (0 ∷ []) _ refl refl (omega arith) tt refl))
        (client_send (122 ∷ []) _ refl refl))
      (client_recv 0 [] [] [] refl refl (omega arith) tt refl)
