-- ===== src/Baseline/Calls.antt =====
-- Baseline/client.c: the calls that the measurements make on the socket. The code never looks at what
-- `send` and `recv` answer, but for a line that it prints, so the calls do not depend on it.
use network_optimization.Prelude.{
  ℕ, zero, suc, ◌+◌, ◌*◌, List, [], ◌∷◌, Bool, ◌==◌, ◌&&◌, if◌then◌else◌,
}
use network_optimization.Prelude.Int.{ℤ, pos, negsuc}
use network_optimization.Exchange.{Address, connect_loop}

-- A call of `send` with its bytes, or one of `recv`.
pub data Call : Type 0 where
  send : (message : List ℕ) → Call
  recv : Call

-- 'z'
abbrev pub end_byte : ℕ
end_byte = 122

abbrev num_of_messages : ℕ
num_of_messages = 1024

abbrev num_of_warmup : ℕ
num_of_warmup = 500

-- `memset(message, 'A', message_size)`
unfoldable pub filled : ℕ → List ℕ
filled zero = []
filled (suc n) = 65 ∷ filled n

-- The loop that sends the messages of one experiment, with the calls behind it.
unfoldable pub send_messages : ℕ → List ℕ → List Call → List Call
send_messages zero message calls = calls
send_messages (suc n) message calls = Call.send message ∷ send_messages n message calls

-- The rounds left of `measure_throughput`, at a message size, with the calls behind them.
unfoldable pub throughput_rounds : ℕ → ℕ → List Call → List Call
throughput_rounds message_size zero calls = calls
throughput_rounds message_size (suc n) calls =
    send_messages num_of_messages (filled message_size)
      (Call.send (end_byte ∷ []) ∷ Call.recv ∷ throughput_rounds (2 * message_size) n calls)

unfoldable pub measure_throughput : ℕ → List Call → List Call
measure_throughput num_experiments = throughput_rounds 1 num_experiments

unfoldable pub measure_latency : ℕ → List Call → List Call
measure_latency zero calls = calls
measure_latency (suc n) calls = Call.send (end_byte ∷ []) ∷ Call.recv ∷ measure_latency n calls

-- What `main` does with the connected socket, before it closes it.
unfoldable pub client_calls : List Call
client_calls =
    measure_latency num_of_warmup (measure_throughput 21 (measure_latency num_of_messages []))

-- What the calls of `main` before the measurement answer, with the number of its arguments.
pub record ClientCalls : Type 0 where
  pub argc : ℕ
  pub service_printed : Bool
  pub resolved : Bool
  pub addresses : List Address

-- What `main` returns, its calls on the connected socket, and the sockets it opened and closed.
pub record ClientEnd : Type 0 where
  pub status : ℤ
  pub calls : List Call
  pub opened : ℕ
  pub closed : ℕ

-- The addresses are tried as in the other programs.
unfoldable pub client_main : ClientCalls → ClientEnd
client_main c =
    let tried = connect_loop c.addresses 0 0 in
    let nothing : ClientEnd = record { status = negsuc 0; calls = []; opened = 0; closed = 0 } in
    if c.argc == 2 && c.service_printed && c.resolved
    then (if tried.0
        then record { status = pos 0; calls = client_calls; opened = tried.1; closed = tried.2 + 1 }
        else record nothing { opened = tried.1; closed = tried.2 })
    else nothing
