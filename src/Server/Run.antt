-- ===== src/Server/Run.antt =====
-- `run_server` of LowLatencyProtocols/kv_api.c: the loop that polls the clients in turn.
pub mod Progress
pub mod Invariant
use network_optimization.Prelude.{
  ℕ, zero, suc, ◌+◌, Option, none, some, List, [], ◌∷◌, Bool, true, false, ◌==◌, if◌then◌else◌,
  length, get_elem?, set, drop,
}
use network_optimization.Prelude.Strings.{le_value}
use network_optimization.Heap.{Heap}
use network_optimization.Database.{
  KeyValueAddressArray, set_kv_malloc, initialize_key_value_address_array, free_array,
}
use network_optimization.Protocol.{
  Operation, shut_down_server, client_kv_set_eager, client_kv_set_rendezvous, client_kv_get,
  client_kv_get_rendezvous_fin, client_kv_set_rendezvous_fin, op_code,
}
use network_optimization.Verbs.{
  Outcome, returned, waiting, fault, PingpongContext, ReceiveCode, problem, no_results, success,
  poll_next_receive_wc,
}
use network_optimization.Server.{
  Server, ◌>>=◌, lift, handle_eager_kv_set, handle_rendezvous_kv_set_key, handle_client_kv_get,
  handle_client_kv_set_rendezvous_fin, handle_client_kv_get_rendezvous_fin,
}

-- `get_remote_control_message`: 1 is that nothing was polled.
unfoldable pub get_remote_control_message : PingpongContext → Bool → Outcome (ℕ × PingpongContext)
get_remote_control_message c blocking = do
  (code, c') ← poll_next_receive_wc c blocking
  returned (elim code [ success ↦ 0 | problem ↦ 1 | no_results ↦ 1 ], c')

-- `remote_control_message->operation`, an `int`.
abbrev pub received_code : PingpongContext → Option ℕ
received_code c = le_value 4 (drop c.mr_control_send_size c.work)

abbrev served : Outcome (ℕ × Server) → Outcome Server
served o = o >>= λ r. returned r.1

-- The handler of a request; the answers of the handlers are not looked at, and what is no request
-- is passed over.
unfoldable pub dispatch : Server → ℕ → Outcome Server
dispatch s code =
    if code == op_code client_kv_set_eager
    then served (handle_eager_kv_set s)
    else if code == op_code client_kv_set_rendezvous
    then served (handle_rendezvous_kv_set_key s)
    else if code == op_code client_kv_get_rendezvous_fin
    then served (handle_client_kv_get_rendezvous_fin s)
    else if code == op_code client_kv_get
    then served (handle_client_kv_get s)
    else if code == op_code client_kv_set_rendezvous_fin
    then served (handle_client_kv_set_rendezvous_fin s)
    else returned s

-- `run_server` between two visits: the server (its `ctx` is that of the client served last), the
-- contexts of all clients, and the shut-down requests so far.
pub record Loop : Type 0 where
  pub server : Server
  pub contexts : List PingpongContext
  pub num_shut_down_server_request : ℕ

-- What a visit leads to: the loop goes on, or `run_server` returns after freeing the table.
pub data Visit : Type 0 where
  goes_on : Loop → Visit
  stops : Heap → Visit

-- One round of the inner loop, for client `i` of the `array_ctx_ptr`.
unfoldable pub visit : Loop → ℕ → Outcome Visit
visit l i = do
  c ← lift (get_elem? l.contexts i)
  (polled, c') ← get_remote_control_message c false
  let s = record (l.server) { ctx = c' }
  let after = λ (t : Server). record l { server = t; contexts = set l.contexts i t.ctx }
  if polled == 1 then returned (goes_on (after s)) else (do
    code ← lift (received_code c')
    if code == op_code shut_down_server
        then (let n = l.num_shut_down_server_request + 1 in
            if n == length l.contexts
            then (do h ← lift (free_array s.kv_malloc s.heap s.database); returned (stops h))
            else returned (goes_on (record (after s) { num_shut_down_server_request = n })))
        else (dispatch s code >>= λ t. returned (goes_on (after t))))

-- `run_server` before its loop, for a fresh process: `kv_malloc` is 0 at first, and the table gets
-- 20 slots.
unfoldable pub start : Server → Server
start s = record s {
  kv_malloc = set_kv_malloc 0;
  database = initialize_key_value_address_array s.stale_slot 20;
}

-- The client that is visited behind client `i`.
abbrev pub next_client : Loop → ℕ → ℕ
next_client l i = if i + 1 == length l.contexts then 0 else i + 1

-- The loops of `run_server`, as far as so many visits go; more are `waiting`.
unfoldable pub run_loop : ℕ → Loop → ℕ → Outcome Heap
run_loop zero l i = waiting
run_loop (suc n) l i = visit l i >>= λ v. elim v [
  | goes_on l' ↦ run_loop n l' (next_client l i)
  | stops h ↦ returned h
]

unfoldable pub run_server : ℕ → Server → List PingpongContext → Outcome Heap
run_server visits s contexts =
    run_loop visits
      (record { server = start s; contexts = contexts; num_shut_down_server_request = 0 }) 0
