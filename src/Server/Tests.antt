-- ===== src/Server/Tests.antt =====
-- Runs of the server's handlers on one key, "k", whose value is "v".
use network_optimization.Prelude.{
  ℕ, ◌+◌, ◌^◌, zero, suc, ◌≤◌, ◌<◌, ◌≡◌, refl, sym, append-nil, Option, none, some, List, [], ◌∷◌,
  ◌++◌, true, false, arith, Bool-cases, inl, inr,
}
use network_optimization.Prelude.Int.{pos}
use network_optimization.Prelude.Strings.{
  c_string, same_string, le_value, le_bytes, IsText, swap_bytes,
}
use network_optimization.Heap.{Heap, string_at}
use network_optimization.Heap.Frame.{IsFresh}
use network_optimization.Database.{
  get_key_value_address_pair, find_index, set_kv_malloc, initialize_key_value_address_array, MrInfo,
}
use network_optimization.Database.Table.{Key}
use network_optimization.Database.Insert.{lookup}
use network_optimization.Protocol.{
  memcpy, decode_control_message_buffer, decode_sizes, decode_loop, strlen, set_control_message,
  message_parts, copy_parts, op_code,
}
use network_optimization.Protocol.Layout.{
  Message, shut_down, set_eager, set_rendezvous, get, get_fin, set_fin, in_progress, get_value,
  get_address, set_address, set_done, operation, fields, payload,
}
use network_optimization.Verbs.{
  wc_send, wc_recv, poll_next_receive_wc, receive_loop, process_received, by_opcode, taken, refill,
  refilled, decrement, needs_refill, pp_post_send, post_request, poll_n_send_wc, poll_send_loop,
  with_send_polls, count_completed, is_send_opcode, entries, Outcome, returned, PingpongContext,
}
use network_optimization.Server.{
  reply, Server, region_of, handle_eager_kv_set, handle_rendezvous_kv_set_key, handle_client_kv_get,
  handle_client_kv_set_rendezvous_fin,
}
use network_optimization.Server.Reply.{Accepts}
use network_optimization.Server.Request.{Received}
use network_optimization.Server.Register.{registered}
use network_optimization.Server.Refused.{with_value, handler_of-busy}
use network_optimization.Server.Table.{IsServing, answered, Stores}
use network_optimization.Server.Eager.{handle_eager_kv_set-Stores}
use network_optimization.Server.Rendezvous.{
  StoresBlock, address_for, handle_rendezvous_kv_set_key-offers,
}
use network_optimization.Server.Get.{handle_client_kv_get-registers}
use network_optimization.Server.SetGet.{handle_eager_kv_set-handle_client_kv_get}
use network_optimization.Server.Run.{
  get_remote_control_message, dispatch, Loop, Visit, goes_on, visit, start,
}
use network_optimization.Server.Run.Invariant.{here, visited, run_server-IsServing}
use network_optimization.Server.Run.Progress.{Counts, heard, visit-Counts}
use network_optimization.Server.Finish.{fin_handler-Stores}

abbrev k_key : List ℕ
k_key = 107 ∷ []

abbrev j_key : List ℕ
j_key = 106 ∷ []

abbrev v_value : List ℕ
v_value = 118 ∷ []

-- The key in block 0 and the value in block 1.
cells : ℕ → Option (List ℕ)
cells zero = some (107 ∷ 0 ∷ [])
cells (suc zero) = some (118 ∷ 0 ∷ [])
cells (suc (suc n)) = none

abbrev memory : Heap
memory = record { next = 2; cell = cells; stale = λ i. 85 }

abbrev zeros : List ℕ
zeros = 0 ∷ 0 ∷ 0 ∷ 0 ∷ 0 ∷ 0 ∷ 0 ∷ 0 ∷ []

-- A send region of 40 bytes, and the message behind it.
abbrev context : Message → PingpongContext
context m = record {
  work =
      zeros
      ++ (zeros
          ++ (zeros
              ++ (zeros ++ (zeros ++ (le_bytes 4 (op_code (operation m)) ++ payload (fields m))))));
  mr_control_send_size = 40;
  mr_control_receive_size = 40;
  rx_depth = 100;
  routs = pos 100;
  mr_rdma_start_ptr = 0;
  mr_rdma_size = 0;
  remote_buf_va = 0;
  remote_buf_rkey = 0;
  max_inline = 64;
  sent = [];
  outstanding = 100;
  post_send_results = 0 ∷ [];
  post_recv_results = [];
  send_polls = entries (record { is_success = true; opcode = wc_send; payload = [] } ∷ []) ∷ [];
  receive_polls = [];
}

-- The table with the one key, whose value has the given size and status.
abbrev server : ℕ → Option MrInfo → Message → Server
server size mr m = record {
  kv_malloc = 0;
  heap = memory;
  database = record {
    head = record { key_address = 0; value_address = 1; value_size = size; mr_rdma = mr } ∷ [];
    used_length = 1;
    total_length = 1;
  };
  ctx = context m;
  reg_mr_results = some (5, 77) ∷ [];
  regions = [];
  dereg_mr = λ r. 0;
  stale_slot = record { key_address = 9; value_address = 9; value_size = 0; mr_rdma = none };
}

abbrev busy : Option MrInfo
busy = some (record { mr = 3; mr_start_ptr = 1; mr_size = 2 })

memory-IsFresh : IsFresh memory
unfolding cells
memory-IsFresh = record { unused = unused }
  where
    unused : (p : ℕ) → 2 ≤ p → cells p ≡ none
    unused zero le = absurd (omega arith)
    unused (suc zero) le = absurd (omega arith)
    unused (suc (suc n)) le = refl

server-IsServing :
    (size : ℕ) (mr : Option MrInfo) (m : Message) → IsServing (server size mr m) (k_key ∷ [])
unfolding cells string_at c_string same_string
server-IsServing size mr m = record {
  keeps = λ e. omega arith;
  fresh = memory-IsFresh;
  table = record {
    within = omega arith;
    slots = refl;
    some_room = omega arith;
    no_overflow = omega arith;
    countable = omega arith;
    keyed = (refl, omega arith, tt);
    distinct = (refl, tt);
  };
  values = values;
}
  where
    values :
        (k : Key) (va size' : ℕ) (mr' : Option MrInfo)
        → lookup k (k_key ∷ []) (server size mr m).database ≡ some (va, size', mr')
        → va < 2
    values k va size' mr' e = elim (Bool-cases (same_string k_key k)) [
      | inl hit ↦ ground arith
      | inr other ↦ absurd (ground arith)
    ]

accepts : (size : ℕ) (mr : Option MrInfo) (m : Message) → Accepts (server size mr m).ctx [] []
accepts size mr m = record {
  wc = record { is_success = true; opcode = wc_send; payload = [] };
  posts = refl;
  polls = refl;
  good = (refl, tt);
}

k_IsText : IsText k_key
k_IsText = (omega arith, tt)

abbrev ww : List ℕ
ww = 119 ∷ 119 ∷ []

Received-get :
    (size : ℕ) (mr : Option MrInfo) (key : List ℕ)
    → IsText key
    → Received (server size mr (get key)).ctx (get key) []
unfolding le_bytes
Received-get size mr key h = record {
  buffer = sym (append-nil ((key ++ (0 ∷ [])) ++ []));
  fit = (h, tt);
}

Received-get_fin :
    (size : ℕ) (mr : Option MrInfo) (key : List ℕ)
    → IsText key
    → Received (server size mr (get_fin key)).ctx (get_fin key) []
unfolding le_bytes
Received-get_fin size mr key h = record {
  buffer = sym (append-nil ((key ++ (0 ∷ [])) ++ []));
  fit = (h, tt);
}

Received-set_fin :
    (size : ℕ) (mr : Option MrInfo) (key : List ℕ)
    → IsText key
    → Received (server size mr (set_fin key)).ctx (set_fin key) []
unfolding le_bytes
Received-set_fin size mr key h = record {
  buffer = sym (append-nil ((key ++ (0 ∷ [])) ++ []));
  fit = (h, tt);
}

Received-eager :
    (size : ℕ) (mr : Option MrInfo)
    → Received (server size mr (set_eager k_key 3 ww)).ctx (set_eager k_key 3 ww) []
unfolding le_bytes
Received-eager size mr = record {
  buffer = refl;
  fit = (k_IsText, ((omega arith, omega arith), ((omega arith, (omega arith, tt)), tt)));
}

Received-rendezvous :
    (size : ℕ) (mr : Option MrInfo)
    → Received (server size mr (set_rendezvous k_key 9000)).ctx (set_rendezvous k_key 9000) []
unfolding le_bytes
Received-rendezvous size mr = record {
  buffer = refl;
  fit = (k_IsText, ((omega arith, omega arith), tt));
}

handle_eager_kv_set-Stores_example :
    Stores
      (server 2 none (set_eager k_key 3 ww))
      (k_key ∷ [])
      k_key
      (some ww, false)
      set_done
      []
      []
      (handle_eager_kv_set (server 2 none (set_eager k_key 3 ww)))
unfolding same_string le_bytes
handle_eager_kv_set-Stores_example =
    handle_eager_kv_set-Stores k_key ww 3 [] (server-IsServing 2 none (set_eager k_key 3 ww))
      (accepts 2 none (set_eager k_key 3 ww)) (omega arith) (Received-eager 2 none) (omega arith)
      (omega arith) refl

handle_rendezvous_kv_set_key-offers_example :
    StoresBlock
      (registered
        (server 2 none (set_rendezvous k_key 9000))
        (region_of (address_for (server 2 none (set_rendezvous k_key 9000))) 9000 true false 5 77)
        [])
      (k_key ∷ [])
      k_key
      (address_for (server 2 none (set_rendezvous k_key 9000)))
      9000
      (region_of (address_for (server 2 none (set_rendezvous k_key 9000))) 9000 true false 5 77)
      (set_address
        (swap_bytes 8 (address_for (server 2 none (set_rendezvous k_key 9000))))
        (swap_bytes 4 77))
      []
      []
      (handle_rendezvous_kv_set_key (server 2 none (set_rendezvous k_key 9000)))
unfolding same_string le_bytes
handle_rendezvous_kv_set_key-offers_example =
    handle_rendezvous_kv_set_key-offers k_key 9000 5 77 [] []
      (server-IsServing 2 none (set_rendezvous k_key 9000))
      (accepts 2 none (set_rendezvous k_key 9000)) (omega arith) (Received-rendezvous 2 none)
      (omega arith) refl refl

handler_of-busy_example :
    handle_eager_kv_set (server 2 busy (set_eager k_key 3 ww))
    ≡ returned (0, answered (server 2 busy (set_eager k_key 3 ww)) in_progress [] [])
unfolding same_string le_bytes
handler_of-busy_example =
    handler_of-busy (with_value 3 ww) k_key [] (server-IsServing 2 busy (set_eager k_key 3 ww))
      (accepts 2 busy (set_eager k_key 3 ww)) (omega arith) (Received-eager 2 busy) refl

handle_eager_kv_set-handle_client_kv_get_example :
    (t : Server) × (handle_eager_kv_set (server 2 none (set_eager k_key 3 ww))
      ≡ returned (0, answered t set_done [] []))
    × (handle_client_kv_get (record t { ctx = context (get k_key) })
        ≡ returned (0, answered (record t { ctx = context (get k_key) }) (get_value ww) [] []))
unfolding same_string le_bytes
handle_eager_kv_set-handle_client_kv_get_example =
    handle_eager_kv_set-handle_client_kv_get k_key ww 3 [] [] (context (get k_key))
      (server-IsServing 2 none (set_eager k_key 3 ww)) (accepts 2 none (set_eager k_key 3 ww))
      (omega arith) (Received-eager 2 none) (omega arith) (omega arith) (omega arith) refl
      (accepts 2 none (get k_key)) (Received-get 2 none k_key k_IsText) (omega arith)

handle_client_kv_get-registers_example :
    Stores
      (registered (server 5000 none (get k_key)) (region_of 1 5000 false true 5 77) [])
      (k_key ∷ [])
      k_key
      (some v_value, true)
      (get_address 5000 (swap_bytes 8 1) (swap_bytes 4 77))
      []
      []
      (handle_client_kv_get (server 5000 none (get k_key)))
unfolding le_bytes same_string cells string_at c_string
handle_client_kv_get-registers_example =
    handle_client_kv_get-registers k_key [] (server-IsServing 5000 none (get k_key))
      (accepts 5000 none (get k_key)) (Received-get 5000 none k_key k_IsText) 1 5000 5 77 [] refl
      (omega arith) (omega arith) refl (omega arith)

fin_handler-Stores_example :
    Stores
      (server 2 busy (set_fin k_key))
      (k_key ∷ [])
      k_key
      (some v_value, false)
      set_done
      []
      []
      (handle_client_kv_set_rendezvous_fin (server 2 busy (set_fin k_key)))
unfolding le_bytes same_string cells string_at c_string
fin_handler-Stores_example =
    fin_handler-Stores k_key [] 1 2 busy true (server-IsServing 2 busy (set_fin k_key))
      (accepts 2 busy (set_fin k_key)) (omega arith) refl (Received-set_fin 2 busy k_key k_IsText)

-- A client asks a server that has just started for a key.
abbrev asking : PingpongContext
asking = record (context (get k_key)) {
  receive_polls =
      entries (
        record {
          is_success = true;
          opcode = wc_recv;
          payload = le_bytes 4 (op_code (operation (get k_key))) ++ payload (fields (get k_key));
        }
        ∷ [])
      ∷ [];
}

abbrev first_loop : Loop
first_loop = record {
  server = start (server 2 none (get k_key));
  contexts = asking ∷ [];
  num_shut_down_server_request = 0;
}

abbrev loop_of : Outcome Visit → Loop
loop_of (returned (goes_on l)) = l
loop_of _ = first_loop

first_visit : visit first_loop 0 ≡ returned (goes_on (loop_of (visit first_loop 0)))
unfolding visit get_remote_control_message dispatch start poll_next_receive_wc receive_loop
    process_received by_opcode taken refill refilled decrement needs_refill pp_post_send
    post_request poll_n_send_wc poll_send_loop with_send_polls count_completed is_send_opcode
    decode_control_message_buffer decode_sizes decode_loop strlen set_control_message message_parts
    copy_parts op_code get_key_value_address_pair find_index set_kv_malloc
    initialize_key_value_address_array handle_client_kv_get reply le_bytes le_value c_string memcpy
first_visit = refl

first_small : first_loop.server.database.used_length + 1 < 2 ^ 31
unfolding start initialize_key_value_address_array
first_small = omega arith

run_server-IsServing_example : (ks : List Key) × IsServing (loop_of (visit first_loop 0)).server ks
run_server-IsServing_example =
    run_server-IsServing (server 2 none (get k_key)) first_loop (loop_of (visit first_loop 0))
      memory-IsFresh refl (visited 0 here first_small first_visit)

-- One of two clients has asked to shut down, and the other asks now.
abbrev last_visit : Loop
last_visit = record {
  server = server 2 none shut_down;
  contexts =
      context shut_down
      ∷ record (context shut_down) {
        receive_polls =
            entries (
              record {
                is_success = true;
                opcode = wc_recv;
                payload = le_bytes 4 (op_code (operation shut_down));
              }
              ∷ [])
            ∷ [];
      }
      ∷ [];
  num_shut_down_server_request = 1;
}

visit-Counts_example : Counts last_visit (heard last_visit 1) (visit last_visit 1)
visit-Counts_example = visit-Counts last_visit 1 (omega arith)
